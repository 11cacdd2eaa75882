-- ===== src/App/Main/Exit.antt =====
-- The end of `SNTP_Main` (fsw/src/sntp.c): the loop's last test and what follows it.
use cfe_sntp.Base.{
  ℕ, zero, suc, ◌-◌, ◌≤◌, ◌<◌, ◌≡◌, ◌≢◌, refl, ap, ◌∙◌, true, false, [], ◌∷◌, List, ==ℤ_iff, arith,
  Bool-cases, inl, inr,
}
use cfe_sntp.Platform.{Platform, Call}
use cfe_sntp.Platform.Laws.{IsCfe}
use cfe_sntp.World.{World, call}
use cfe_sntp.Request.Laws.{second_reading, answer_request_sends}
use cfe_sntp.App.{SntpData, perf_id, sntp_stratum, update_cnts}
use cfe_sntp.App.Init.{init}
use cfe_sntp.App.Main.{
  Client, count_request, process_sntp_request, poll_command, receive, handle, serve, round,
  run_loop, main_loop, start, finish, sntp_main,
}
use cfe_sntp.App.Trace.{tests}
use cfe_sntp.App.Trace.Command.{poll_command-Silent}
use cfe_sntp.App.Trace.Request.{second_reading-Silent, send_response-sends}

module _ (p : Platform) where
  tests-process_sntp_request :
      (client : Client) (w : World SntpData)
      → tests (process_sntp_request p client w).1.calls ≡ tests w.calls
  unfolding process_sntp_request
  tests-process_sntp_request client w =
      let (bytes, run) =
        answer_request_sends p w.state.sockfd sntp_stratum client.addr client.len w in
      ap (λ r. tests r.1.calls) run
      ∙ (send_response-sends p w.state.sockfd bytes client.addr client.len (second_reading p w).1).1
      ∙ (second_reading-Silent p w).same_tests

  tests-serve :
      (client : Client) (w : World SntpData) → tests (serve p client w).1.calls ≡ tests w.calls
  unfolding serve receive handle
  tests-serve client w =
      let got = receive p client w in
      let v = (update_cnts count_request got.1).1 in
      ground (arith, tests-process_sntp_request got.0.2 v)

  pub tests-round :
      (client : Client) (w : World SntpData) → tests (round p client w).1.calls ≡ tests w.calls
  unfolding round
  tests-round client w =
      tests-serve client (poll_command p w).1 ∙ (poll_command-Silent p w).same_tests

  -- The platform ends the loop by its test number `limit` at the latest.
  abbrev pub StopsBy : ℕ → Type 0
  StopsBy limit =
      (status : ℕ) (h : List Call)
      → limit ≤ tests h
      → p.answers.keeps_running (Call.run_loop status ∷ h) ≡ false

  abbrev pub first_client : World SntpData → Client
  first_client w = record { addr = p.answers.unset_addr (start p w).1.calls; len = p.sockaddr_size }

  pub main_loop_ends :
      (limit fuel : ℕ) (client : Client) (w : World SntpData)
      → StopsBy limit
      → limit - tests w.calls < fuel
      → (main_loop p fuel client w).0 ≡ true
  unfolding main_loop run_loop
  main_loop_ends limit zero client w stops enough = absurd (omega arith)
  main_loop_ends limit (suc fuel) client w stops enough =
      let h = Call.run_loop w.state.run_status ∷ w.calls in
      let next = (run_loop p w).1 in
      elim (Bool-cases (p.answers.keeps_running h)) [
        | inl more ↦ rw more (
            main_loop_ends limit fuel (round p client next).0 (round p client next).1 stops
              (ground (arith, tests-round client next, stops w.state.run_status w.calls)))
        | inr done ↦ rw done
      ]

  -- The app ends by itself if the run loop ends: with a test number `limit` that must be the last,
  -- fuel for `limit + 1` tests is enough, whatever was initialised. Its last call is the exit, with
  -- the run status that the state holds.
  pub sntp_main_ends :
      (limit fuel : ℕ) (w : World SntpData)
      → StopsBy limit
      → limit < fuel
      → ((sntp_main p fuel w).0 ≡ true)
        × (rest : List Call) × ((sntp_main p fuel w).1.calls
            ≡ Call.exit_app (sntp_main p fuel w).1.state.run_status ∷ rest)
  unfolding sntp_main finish
  sntp_main_ends limit fuel w stops enough =
      rw (main_loop_ends limit fuel (first_client w) (start p w).1 stops (omega arith))
        (refl, _, refl)

  abbrev pub entered : World SntpData → World SntpData
  entered w = (call p (Call.perf_log_entry perf_id) w).1

  -- The history of a run whose initialisation made the calls `h` and failed.
  abbrev pub failed_run : List Call → List Call
  failed_run h =
      let tested = Call.run_loop p.cfe.app_error ∷ Call.os_printf "SNTP Init Failed!\n" [] ∷ h in
      Call.exit_app (p.answers.run_status tested)
      ∷ Call.perf_log_exit perf_id
      ∷ Call.os_printf "****SNTP App Exiting****\n" []
      ∷ tested

module _ (p : Platform) (cfe : IsCfe p) where
  -- A failed initialisation ends the app at the first test of the loop: it polls no command, reads
  -- no datagram and sends none. The run loop must refuse a status other than that of a running app,
  -- and the error status must be another.
  pub failed_init_exits :
      (fuel : ℕ) (w : World SntpData)
      → (init p (entered p w)).0 ≢ p.cfe.success
      → ((sntp_main p (suc fuel) w).0 ≡ true)
        × ((sntp_main p (suc fuel) w).1.calls ≡ failed_run p (init p (entered p w)).1.calls)
  unfolding sntp_main start main_loop run_loop finish
  failed_init_exits fuel w failed = ground (
    arith,
    ==ℤ_iff (init p (entered p w)).0 p.cfe.success,
    cfe.stops p.cfe.app_error
        (Call.os_printf "SNTP Init Failed!\n" [] ∷ (init p (entered p w)).1.calls) cfe.error_stops,
  )
