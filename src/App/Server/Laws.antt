-- ===== src/App/Server/Laws.antt =====
-- Every run of the app (fsw/src/sntp.c) is a run of the abstract server.
use cfe_sntp.Base.{ℕ, ◌≡◌, ap, ◌∙◌, [], length, arith}
use cfe_sntp.Telemetry.{zero_payload}
use cfe_sntp.Platform.{Platform, Call}
use cfe_sntp.Platform.Laws.{IsHost, IsCfe, IsCoreSntp, IsAnswers}
use cfe_sntp.World.{World, call}
use cfe_sntp.App.{SntpData}
use cfe_sntp.App.Init.Keeps.{IsSetup, start-keeps}
use cfe_sntp.App.Main.{Client, poll_command, serve, run_loop, start, finish, sntp_main}
use cfe_sntp.App.Main.Keeps.{sntp_main-keeps}
use cfe_sntp.App.Replies.Request.{poll_command-Quiet, start-Quiet}
use cfe_sntp.App.Replies.Right.{FillsPackets, serve_requests}
use cfe_sntp.App.Tally.Init.{start_cleared}
use cfe_sntp.App.Server.{visible, begin, Serves}
use cfe_sntp.App.Server.Command.{poll_command-Serves}
use cfe_sntp.App.Server.Request.{serve-Serves}

module _ (p : Platform) where
  record IsServing (w : World SntpData) : Type 0 where
    buffer : length w.net_buf ≡ p.sntp.packet_size
    served : Serves p w

  setup-visible :
      (c : Call) (w : World SntpData)
      → IsSetup c
      → visible p w.calls ≡ []
      → visible p (call p c w).1.calls ≡ []
  setup-visible c w setup unseen = ground arith

  -- Nothing is seen of the start, and the counters are clear.
  start-IsServing :
      (w : World SntpData)
      → w.calls ≡ []
      → length w.net_buf ≡ p.sntp.packet_size
      → IsServing (start p w).1
  start-IsServing w fresh size =
      let unseen =
        start-keeps p (λ v. visible p v.calls ≡ []) (λ s v same. same) setup-visible w
          (ap (visible p) fresh) in
      record {
        buffer = ap length (start-Quiet p w).same_buffer ∙ size;
        served = record {
          counts = zero_payload;
          run = rw unseen begin;
          shows = rw (start_cleared p w fresh) (omega arith);
        };
      }

  run_loop-IsServing : (w : World SntpData) → IsServing w → IsServing (run_loop p w).1
  unfolding run_loop
  run_loop-IsServing w now = record {
    buffer = now.buffer;
    served = let s = now.served in record { counts = s.counts; run = s.run; shows = s.shows };
  }

  finish-IsServing : (w : World SntpData) → IsServing w → IsServing (finish p w).1
  unfolding finish
  finish-IsServing w now = record {
    buffer = now.buffer;
    served = let s = now.served in record { counts = s.counts; run = s.run; shows = s.shows };
  }

module _ (p : Platform) (host : IsHost p.host) (cfe : IsCfe p) (sntp : IsCoreSntp p.sntp)
    (answers : IsAnswers p) (fills : FillsPackets p) where
  poll_command-IsServing : (w : World SntpData) → IsServing p w → IsServing p (poll_command p w).1
  poll_command-IsServing w now = record {
    buffer = ap length (poll_command-Quiet p w).same_buffer ∙ now.buffer;
    served = poll_command-Serves p cfe w now.served;
  }

  serve-IsServing :
      (client : Client) (w : World SntpData) → IsServing p w → IsServing p (serve p client w).1
  serve-IsServing client w now = record {
    buffer = (serve_requests p client w).1 ∙ now.buffer;
    served = serve-Serves p host sntp answers fills client w now.served now.buffer;
  }

  -- At every point of a run of the app, what was seen of it is what a run of the abstract server
  -- shows, in the same order, and its counters show the counts of that run. Each message, each
  -- datagram that is not empty and each error of the read that is no timeout is a step, whose event,
  -- telemetry or right reply follows at once, and nothing else is seen. The receive buffer has the
  -- size of a packet, a read fills the packet whose length it returns, and the host, cFE's time
  -- stamp, the packet's layout and the other answers are as documented.
  pub sntp_main-Serves :
      (fuel : ℕ) (w : World SntpData)
      → w.calls ≡ []
      → length w.net_buf ≡ p.sntp.packet_size
      → Serves p (sntp_main p fuel w).1
  sntp_main-Serves fuel w fresh size =
      (sntp_main-keeps p (IsServing p) (run_loop-IsServing p) poll_command-IsServing serve-IsServing
        fuel w (finish-IsServing p) (start-IsServing p w fresh size)).served
