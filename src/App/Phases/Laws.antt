-- ===== src/App/Phases/Laws.antt =====
-- The order of the calls of `SNTP_Main` (fsw/src/sntp.c), part by part.
use cfe_sntp.Base.{
  ℕ, zero, suc, ◌≡◌, ◌⊎◌, refl, true, false, [], Bytes, ℤ, inl, inr, Bool-cases, arith,
}
use cfe_sntp.Platform.{Platform, Call, Timestamp}
use cfe_sntp.World.{World, call}
use cfe_sntp.Clock.{get_current_sntp_time}
use cfe_sntp.Request.{answer_request, send_response}
use cfe_sntp.Request.Laws.{first_reading, answer_request_sends}
use cfe_sntp.App.{SntpData, update_cnts, sntp_stratum}
use cfe_sntp.App.Command.{
  verify_cmd_length, noop, reset_counters, report_housekeeping, process_ground_command,
  process_command_packet,
}
use cfe_sntp.App.Init.Keeps.{IsSetup, start-keeps}
use cfe_sntp.App.Main.{
  Client, count_request, process_sntp_request, poll_command, receive, handle, serve, round,
  run_loop, main_loop, start, finish, sntp_main,
}
use cfe_sntp.App.Phases.{
  initialising, tested, commanding, reading, timed, timed_twice, answered, gone, may_test, follow,
}

module _ {ℓ} {S : Type ℓ} (p : Platform) where
  first_time :
      (old : Timestamp) (w : World S)
      → follow w.calls ≡ reading
      → follow (get_current_sntp_time p old w).1.calls ≡ timed
  unfolding get_current_sntp_time
  first_time old w at = ground arith

  second_time :
      (old : Timestamp) (w : World S)
      → follow w.calls ≡ timed
      → follow (get_current_sntp_time p old w).1.calls ≡ timed_twice
  unfolding get_current_sntp_time
  second_time old w at = ground arith

  answer_request-follow :
      (fd : ℤ) (level : ℕ) (addr : Bytes) (len : ℕ) (w : World S)
      → follow w.calls ≡ reading
      → follow (answer_request p fd level addr len w).1.calls ≡ answered
  unfolding send_response
  answer_request-follow fd level addr len w at =
      let (bytes, run) = answer_request_sends p fd level addr len w in
      let at' = first_time (p.answers.unset_time w.calls) w at in
      let at'' = second_time (first_reading p w).0 (first_reading p w).1 at' in
      rw run (ground arith)

module _ (p : Platform) where
  process_command_packet-follow :
      (msg : Bytes) (w : World SntpData)
      → follow w.calls ≡ commanding
      → follow (process_command_packet p msg w).1.calls ≡ commanding
  unfolding process_command_packet report_housekeeping process_ground_command verify_cmd_length noop
      reset_counters
  process_command_packet-follow msg w at = ground arith

  poll_command-follow :
      (w : World SntpData)
      → follow w.calls ≡ tested
      → follow (poll_command p w).1.calls ≡ commanding
  unfolding poll_command
  poll_command-follow w at = grind (arith, process_command_packet-follow)

  -- A phase after which the run loop is tested.
  abbrev IsReady : World SntpData → Type 0
  IsReady w = may_test (follow w.calls) ≡ true

  serve-IsReady :
      (client : Client) (w : World SntpData)
      → follow w.calls ≡ commanding
      → IsReady (serve p client w).1
  unfolding serve receive handle process_sntp_request
  serve-IsReady client w at =
      let got = receive p client w in
      let v = (update_cnts count_request got.1).1 in
      ground (arith, answer_request-follow p v.state.sockfd sntp_stratum got.0.2.addr got.0.2.len v)

  main_loop-follow :
      (fuel : ℕ) (client : Client) (w : World SntpData)
      → IsReady w
      → let r = main_loop p fuel client w in
        ((r.0 ≡ true) × (follow r.1.calls ≡ tested)) ⊎ ((r.0 ≡ false) × IsReady r.1)
  unfolding main_loop run_loop round
  main_loop-follow zero client w ready = inr (refl, ready)
  main_loop-follow (suc fuel) client w ready =
      let turn = run_loop p w in
      let at : follow turn.1.calls ≡ tested = ground arith in
      let polled = (poll_command p turn.1).1 in
      let served = serve p client polled in
      let ready' = serve-IsReady client polled (poll_command-follow turn.1 at) in
      elim (Bool-cases turn.0) [
        | inl more ↦ rw more (main_loop-follow fuel served.0 served.1 ready')
        | inr done ↦ rw done (inl (refl, at))
      ]

  setup-follow :
      (c : Call) (w : World SntpData)
      → IsSetup c
      → follow w.calls ≡ initialising
      → follow (call p c w).1.calls ≡ initialising
  setup-follow c w setup at = ground arith

  -- In every run of the app the calls come in the order of its phases: a poll before each read, and
  -- between a read and the next test of the run loop either nothing, or one report, or two readings
  -- of the clock and then one reply. The run is gone through its exit exactly if a test ended the
  -- loop, and stands before a test otherwise.
  pub sntp_main-follow :
      (fuel : ℕ) (w : World SntpData)
      → w.calls ≡ []
      → let r = sntp_main p fuel w in
        ((r.0 ≡ true) × (follow r.1.calls ≡ gone))
        ⊎ ((r.0 ≡ false) × (may_test (follow r.1.calls) ≡ true))
  unfolding sntp_main finish
  sntp_main-follow fuel w fresh =
      let begun =
        start-keeps p (λ v. follow v.calls ≡ initialising) (λ s v at. at) setup-follow w in
      let v = (start p w).1 in
      let first : Client = record { addr = p.answers.unset_addr v.calls; len = p.sockaddr_size } in
      ground (arith, main_loop-follow fuel first v, begun (ground arith))
