-- ===== src/App/Replies/Main.antt =====
-- The replies of a whole run of `SNTP_Main` (fsw/src/sntp.c), and who asked for them.
use cfe_sntp.Base.{ℕ, ◌≡◌, [], arith}
use cfe_sntp.Platform.{Platform}
use cfe_sntp.World.{World}
use cfe_sntp.App.{SntpData, update_cnts, sntp_stratum}
use cfe_sntp.App.Main.Keeps.{sntp_main-keeps}
use cfe_sntp.App.Main.{
  Client, count_request, process_sntp_request, poll_command, receive, handle, serve, run_loop,
  finish, sntp_main,
}
use cfe_sntp.App.Replies.{IsPaired}
use cfe_sntp.App.Replies.Request.{answer_request-replies, poll_command-Quiet, start-Quiet}

module _ (p : Platform) where
  poll_command-IsPaired : (w : World SntpData) → IsPaired p w → IsPaired p (poll_command p w).1
  poll_command-IsPaired w paired = ground (arith, poll_command-Quiet p w)

  serve-IsPaired :
      (client : Client) (w : World SntpData) → IsPaired p w → IsPaired p (serve p client w).1
  unfolding serve receive handle process_sntp_request
  serve-IsPaired client w paired =
      let got = receive p client w in
      let v = (update_cnts count_request got.1).1 in
      ground
        (arith, answer_request-replies p v.state.sockfd sntp_stratum got.0.2.addr got.0.2.len v)

  run_loop-IsPaired : (w : World SntpData) → IsPaired p w → IsPaired p (run_loop p w).1
  unfolding run_loop
  run_loop-IsPaired w paired = ground arith

  finish-IsPaired : (w : World SntpData) → IsPaired p w → IsPaired p (finish p w).1
  unfolding finish
  finish-IsPaired w paired = ground arith

  -- At every point of a run of the app, from any memory and with any answers of the platform, the
  -- calls of `sendto` are paired with the datagrams read that have the length of a packet: each
  -- reply goes to the address that its request came from, on the same socket, once for each request
  -- and in the order of the requests. Nobody else is sent anything.
  pub sntp_main-IsPaired :
      (fuel : ℕ) (w : World SntpData) → w.calls ≡ [] → IsPaired p (sntp_main p fuel w).1
  sntp_main-IsPaired fuel w fresh =
      let begun : IsPaired p w = ground arith in
      sntp_main-keeps p (IsPaired p) run_loop-IsPaired poll_command-IsPaired serve-IsPaired fuel w
        finish-IsPaired (ground (arith, start-Quiet p w))
