-- ===== src/App/Rounds/Laws.antt =====
-- The polls and the reads of `SNTP_Main` (fsw/src/sntp.c), counted through its parts.
use cfe_sntp.Base.{
  ℕ, zero, suc, ◌+◌, ◌≤◌, ◌<◌, ◌≡◌, true, [], ◌∷◌, List, Bytes, ℤ, ==ℤ_iff, ◌∙◌, arith,
}
use cfe_sntp.Platform.{Platform, Call, Timestamp}
use cfe_sntp.World.{World, call}
use cfe_sntp.Clock.{get_current_sntp_time}
use cfe_sntp.Request.{answer_request, send_response}
use cfe_sntp.App.{perf_id, SntpData, update_cnts, sntp_stratum}
use cfe_sntp.App.Command.{
  verify_cmd_length, noop, reset_counters, report_housekeeping, process_ground_command,
  process_command_packet,
}
use cfe_sntp.App.Init.Keeps.{IsSetup, start-keeps}
use cfe_sntp.App.Main.{
  Client, count_request, process_sntp_request, poll_command, receive, handle, serve, round,
  run_loop, main_loop, start, finish, sntp_main,
}
use cfe_sntp.App.Init.{init}
use cfe_sntp.App.Init.Laws.{init-Outcome}
use cfe_sntp.App.Main.Exit.{entered, tests-round}
use cfe_sntp.App.Trace.Command.{poll_command-KeepsSetup}
use cfe_sntp.Request.Socket.{answer_request-state}
use cfe_sntp.App.Trace.{tests}
use cfe_sntp.App.Rounds.{polls, reads, exits, Within}

module _ {ℓ} {S : Type ℓ} (p : Platform) where
  get_current_sntp_time-Within :
      (old : Timestamp) (u w : World S) → Within u w → Within u (get_current_sntp_time p old w).1
  unfolding get_current_sntp_time
  get_current_sntp_time-Within old u w within = ground arith

  answer_request-Within :
      (fd : ℤ) (level : ℕ) (addr : Bytes) (len : ℕ) (u w : World S)
      → Within u w
      → Within u (answer_request p fd level addr len w).1
  unfolding answer_request send_response
  answer_request-Within fd level addr len u w within =
      let first = get_current_sntp_time p (p.answers.unset_time w.calls) w in
      ground (
        arith,
        get_current_sntp_time-Within (p.answers.unset_time w.calls) u w within,
        get_current_sntp_time-Within first.0 u first.1,
      )

module _ (p : Platform) where
  process_command_packet-Within :
      (msg : Bytes) (u w : World SntpData)
      → Within u w
      → Within u (process_command_packet p msg w).1
  unfolding process_command_packet report_housekeeping process_ground_command verify_cmd_length noop
      reset_counters
  process_command_packet-Within msg u w within = ground arith

  poll_counts :
      (w : World SntpData)
      → let h = (poll_command p w).1.calls in
        (polls h ≡ suc (polls w.calls)) × (reads h ≡ reads w.calls) × (exits h ≡ exits w.calls)
  unfolding poll_command
  poll_counts w =
      let h =
        Call.perf_log_entry perf_id
        ∷ Call.poll_buffer w.state.command_pipe
        ∷ Call.perf_log_exit perf_id
        ∷ w.calls in
      let u : World SntpData = record w { calls = Call.os_printf "SNTP CMD Received\n" [] ∷ h } in
      let msg =
        p.answers.message
          (Call.poll_buffer w.state.command_pipe ∷ Call.perf_log_exit perf_id ∷ w.calls) in
      ground (arith, process_command_packet-Within msg u u)

  serve_counts :
      (client : Client) (w : World SntpData)
      → let h = (serve p client w).1.calls in
        (polls h ≡ polls w.calls) × (reads h ≡ suc (reads w.calls)) × (exits h ≡ exits w.calls)
  unfolding serve receive handle process_sntp_request
  serve_counts client w =
      let got = receive p client w in
      let v = (update_cnts count_request got.1).1 in
      ground
        (arith, answer_request-Within p v.state.sockfd sntp_stratum got.0.2.addr got.0.2.len v v)

  -- A round has one poll and one read.
  pub round_counts :
      (client : Client) (w : World SntpData)
      → let h = (round p client w).1.calls in
        (polls h ≡ suc (polls w.calls))
        × (reads h ≡ suc (reads w.calls))
        × (exits h ≡ exits w.calls)
  unfolding round
  round_counts client w =
      let polled = (poll_command p w).1 in omega (arith, poll_counts w, serve_counts client polled)

  setup-Within :
      (u : World SntpData) (c : Call) (w : World SntpData)
      → IsSetup c
      → Within u w
      → Within u (call p c w).1
  setup-Within u c w setup within = ground arith

  pub start-Within : (w : World SntpData) → Within w (start p w).1
  start-Within w =
      start-keeps p (Within w) (λ s v within. ground arith) (setup-Within w) w (ground arith)

  -- The run loop grants the first `n` rounds of a running app, and leaves it running.
  abbrev pub Grants : ℕ → Type 0
  Grants n =
      (h : List Call)
      → tests h < n
      → let asked = Call.run_loop p.cfe.app_run ∷ h in
        (p.answers.keeps_running asked ≡ true) × (p.answers.run_status asked ≡ p.cfe.app_run)

  serve-status :
      (client : Client) (w : World SntpData)
      → (serve p client w).1.state.run_status ≡ w.state.run_status
  unfolding serve receive handle process_sntp_request
  serve-status client w =
      let got = receive p client w in
      let v = (update_cnts count_request got.1).1 in
      ground (arith, answer_request-state p v.state.sockfd sntp_stratum got.0.2.addr got.0.2.len v)

  round-status :
      (client : Client) (w : World SntpData)
      → (round p client w).1.state.run_status ≡ w.state.run_status
  unfolding round
  round-status client w =
      serve-status client (poll_command p w).1 ∙ (poll_command-KeepsSetup p w).same_status

  main_loop_rounds :
      (n fuel : ℕ) (client : Client) (w : World SntpData)
      → Grants n
      → w.state.run_status ≡ p.cfe.app_run
      → tests w.calls + fuel ≤ n
      → let h = (main_loop p fuel client w).1.calls in
        (polls h ≡ polls w.calls + fuel) × (reads h ≡ reads w.calls + fuel)
  unfolding main_loop run_loop
  main_loop_rounds n zero client w grants running enough = omega arith
  main_loop_rounds n (suc fuel) client w grants running enough =
      let tested = (run_loop p w).1 in
      let next = round p client tested in
      let asked = Call.run_loop w.state.run_status ∷ w.calls in
      let granted : p.answers.keeps_running asked ≡ true =
        rw running (grants w.calls (omega arith)).0 in
      let left : p.answers.run_status asked ≡ p.cfe.app_run =
        rw running (grants w.calls (omega arith)).1 in
      rw granted (
        omega (
          arith,
          round_counts client tested,
          tests-round p client tested,
          main_loop_rounds n fuel next.0 next.1 grants (round-status client tested ∙ left)
              (omega (arith, tests-round p client tested)),
        ))

  start-running :
      (w : World SntpData)
      → (init p (entered p w)).0 ≡ p.cfe.success
      → (start p w).1.state.run_status ≡ p.cfe.app_run
  unfolding start
  start-running w ready =
      let outcome = init-Outcome p (entered p w) in
      ground (arith, outcome.prepared.running, ==ℤ_iff (init p (entered p w)).0 p.cfe.success)

  -- After an initialisation that succeeds the app takes every round that the run loop grants: with
  -- fuel for the first `n` tests, all of them granted to a running app and none of them changing its
  -- status, it polls the command pipe `n` times and reads the socket `n` times, whatever it reads
  -- and whatever fails.
  pub sntp_main_rounds :
      (n : ℕ) (w : World SntpData)
      → w.calls ≡ []
      → (init p (entered p w)).0 ≡ p.cfe.success
      → Grants n
      → let h = (sntp_main p n w).1.calls in (polls h ≡ n) × (reads h ≡ n)
  unfolding sntp_main finish
  sntp_main_rounds n w fresh ready grants =
      let first : Client = record {
        addr = p.answers.unset_addr (start p w).1.calls;
        len = p.sockaddr_size;
      } in
      let begun = start-Within w in
      ground (
        arith,
        begun.same_polls,
        begun.same_reads,
        begun.same_tests,
        main_loop_rounds n n first (start p w).1 grants (start-running w ready),
      )
