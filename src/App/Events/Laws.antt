-- ===== src/App/Events/Laws.antt =====
-- The events of `SNTP_Main` (fsw/src/sntp.c), part by part.
use cfe_sntp.Base.{ℕ, ◌≡◌, [], Bytes, ℤ, arith}
use cfe_sntp.Platform.{Platform, Call, Timestamp}
use cfe_sntp.World.{World, call}
use cfe_sntp.Clock.{get_current_sntp_time}
use cfe_sntp.Request.{answer_request, send_response}
use cfe_sntp.App.{SntpData, update_cnts, sntp_stratum}
use cfe_sntp.App.Command.{
  verify_cmd_length, noop, reset_counters, report_housekeeping, process_ground_command,
  process_command_packet,
}
use cfe_sntp.App.Init.Keeps.{IsSetup, start-keeps}
use cfe_sntp.App.Main.{
  Client, count_request, process_sntp_request, poll_command, receive, handle, serve, run_loop,
  finish, sntp_main,
}
use cfe_sntp.App.Main.Keeps.{sntp_main-keeps}
use cfe_sntp.App.Events.{AllKnown}

module _ {ℓ} {S : Type ℓ} (p : Platform) where
  get_current_sntp_time-AllKnown :
      (old : Timestamp) (w : World S)
      → AllKnown w.calls
      → AllKnown (get_current_sntp_time p old w).1.calls
  unfolding get_current_sntp_time
  get_current_sntp_time-AllKnown old w known = ground arith

  answer_request-AllKnown :
      (fd : ℤ) (level : ℕ) (addr : Bytes) (len : ℕ) (w : World S)
      → AllKnown w.calls
      → AllKnown (answer_request p fd level addr len w).1.calls
  unfolding answer_request send_response
  answer_request-AllKnown fd level addr len w known = grind (arith, get_current_sntp_time-AllKnown)

module _ (p : Platform) where
  abbrev pub IsKnown : World SntpData → Type 0
  IsKnown w = AllKnown w.calls

  process_ground_command-IsKnown :
      (msg : Bytes) (w : World SntpData) → IsKnown w → IsKnown (process_ground_command p msg w).1
  unfolding process_ground_command verify_cmd_length noop reset_counters
  process_ground_command-IsKnown msg w known = ground arith

  process_command_packet-IsKnown :
      (msg : Bytes) (w : World SntpData) → IsKnown w → IsKnown (process_command_packet p msg w).1
  unfolding process_command_packet report_housekeeping
  process_command_packet-IsKnown msg w known =
      ground (arith, process_ground_command-IsKnown msg w known)

  poll_command-IsKnown : (w : World SntpData) → IsKnown w → IsKnown (poll_command p w).1
  unfolding poll_command
  poll_command-IsKnown w known = grind (arith, process_command_packet-IsKnown)

  serve-IsKnown : (client : Client) (w : World SntpData) → IsKnown w → IsKnown (serve p client w).1
  unfolding serve receive handle process_sntp_request
  serve-IsKnown client w known =
      let got = receive p client w in
      let v = (update_cnts count_request got.1).1 in
      ground
        (arith, answer_request-AllKnown p v.state.sockfd sntp_stratum got.0.2.addr got.0.2.len v)

  run_loop-IsKnown : (w : World SntpData) → IsKnown w → IsKnown (run_loop p w).1
  unfolding run_loop
  run_loop-IsKnown w known = known

  finish-IsKnown : (w : World SntpData) → IsKnown w → IsKnown (finish p w).1
  unfolding finish
  finish-IsKnown w known = known

  setup-IsKnown : (c : Call) (w : World SntpData) → IsSetup c → IsKnown w → IsKnown (call p c w).1
  setup-IsKnown c w setup known = ground arith

  -- Every event of a run of the app is one of the six that its header names for it, with its type:
  -- the startup, NOOP and reset are information; an unknown code, an unknown message and a wrong
  -- length are errors.
  pub sntp_main-IsKnown :
      (fuel : ℕ) (w : World SntpData) → w.calls ≡ [] → AllKnown (sntp_main p fuel w).1.calls
  sntp_main-IsKnown fuel w begun =
      let known : IsKnown w = ground arith in
      sntp_main-keeps p IsKnown run_loop-IsKnown poll_command-IsKnown serve-IsKnown fuel w
        finish-IsKnown (start-keeps p IsKnown (λ s v k. k) setup-IsKnown w known)
