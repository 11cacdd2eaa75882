-- ===== src/App/Tally/Main.antt =====
-- The counts through the loop of `SNTP_Main` (fsw/src/sntp.c) and through a run.
use cfe_sntp.Base.{ℕ, ◌≡◌, [], arith}
use cfe_sntp.Platform.{Platform}
use cfe_sntp.Platform.Laws.{IsCfe, IsCoreSntp}
use cfe_sntp.World.{World}
use cfe_sntp.App.{SntpData, update_cnts, sntp_stratum}
use cfe_sntp.App.Main.Keeps.{sntp_main-keeps}
use cfe_sntp.App.Main.{
  Client, process_sntp_request, count_request, poll_command, receive, handle, serve, run_loop,
  finish, sntp_main,
}
use cfe_sntp.App.Tally.Init.{start-IsExact}
use cfe_sntp.App.Tally.{IsExact}
use cfe_sntp.App.Tally.Request.{answer_request-Counts}
use cfe_sntp.App.Tally.Command.{process_command_packet-IsExact}

module _ (p : Platform) (cfe : IsCfe p) (sntp : IsCoreSntp p.sntp) where
  poll_command-IsExact : (w : World SntpData) → IsExact p w → IsExact p (poll_command p w).1
  unfolding poll_command
  poll_command-IsExact w exact = grind (arith, process_command_packet-IsExact p cfe)

  serve-IsExact :
      (client : Client) (w : World SntpData) → IsExact p w → IsExact p (serve p client w).1
  unfolding serve receive handle process_sntp_request
  serve-IsExact client w exact =
      let got = receive p client w in
      let v = (update_cnts count_request got.1).1 in
      ground
        (arith, answer_request-Counts p sntp v.state.sockfd sntp_stratum got.0.2.addr got.0.2.len v)

  run_loop-IsExact : (w : World SntpData) → IsExact p w → IsExact p (run_loop p w).1
  unfolding run_loop
  run_loop-IsExact w exact = ground arith

  finish-IsExact : (w : World SntpData) → IsExact p w → IsExact p (finish p w).1
  unfolding finish
  finish-IsExact w exact = ground arith

  -- At every point of a run of the app, from any memory and with any answers of the platform, each
  -- counter of the telemetry is the number of times that its event happened since the last reset,
  -- modulo the size of the counter, and every housekeeping packet that was sent showed these
  -- numbers at its time. The platform's time stamp must leave the payload alone, and the status of
  -- a network failure must differ from that of a success.
  pub sntp_main-IsExact :
      (fuel : ℕ) (w : World SntpData) → w.calls ≡ [] → IsExact p (sntp_main p fuel w).1
  sntp_main-IsExact fuel w fresh =
      sntp_main-keeps p (IsExact p) run_loop-IsExact poll_command-IsExact serve-IsExact fuel w
        finish-IsExact (start-IsExact p w fresh)
