-- ===== src/App/Tally/Init.antt =====
-- The counts through `SNTP_Init` (fsw/src/sntp.c).
use Prim.Native.String.{String}
use cfe_sntp.Base.{ℕ, ℤ, ◌≡◌, [], arith}
use cfe_sntp.Telemetry.{zero_payload}
use cfe_sntp.Platform.{Platform, Call}
use cfe_sntp.World.{World, M, call}
use cfe_sntp.Socket.{init_udp_socket}
use cfe_sntp.App.{SntpData, perf_id, sntp_port, cmd_mid, send_hk_mid}
use cfe_sntp.App.Init.{init, prepare, subscribe, open_socket, fail_or}
use cfe_sntp.App.Main.{start}
use cfe_sntp.App.Tally.{IsExact, tally, reports}
use cfe_sntp.App.Tally.Request.{Counts}

module _ (p : Platform) where
  -- Nothing was counted, nothing reported, and the counters say so.
  record IsClear (w : World SntpData) : Type 0 where
    cleared : w.state.cnts ≡ zero_payload
    no_counts : tally p w.calls ≡ zero_payload
    no_reports : reports p w.calls ≡ []

  init_udp_socket-Counts {ℓ} :
      {S : Type ℓ} (port : ℕ) (w : World S)
      → Counts p w (tally p w.calls) (init_udp_socket p port w).1
  unfolding init_udp_socket
  init_udp_socket-Counts port w = record {
    same_state = ground arith;
    same_reports = ground arith;
    counts = ground arith;
  }

  open_socket-IsClear : (w : World SntpData) → IsClear w → IsClear (open_socket p w).1
  unfolding open_socket
  open_socket-IsClear w clear = ground (arith, init_udp_socket-Counts sntp_port w)

  abbrev subscribe_hk : World SntpData → Call
  subscribe_hk w = Call.subscribe (p.cfe.value_to_msg_id (send_hk_mid p)) w.state.command_pipe

  abbrev subscribe_cmd : World SntpData → Call
  subscribe_cmd w = Call.subscribe (p.cfe.value_to_msg_id (cmd_mid p)) w.state.command_pipe

  fail_or-IsClear :
      (text : String) (status : ℤ) (rest : M SntpData ℤ) (w : World SntpData)
      → IsClear w
      → IsClear (rest w).1
      → IsClear (fail_or p text status rest w).1
  fail_or-IsClear text status rest w clear after = ground arith

  subscribe-IsClear : (w : World SntpData) → IsClear w → IsClear (subscribe p w).1
  unfolding subscribe
  subscribe-IsClear w clear =
      let first : World SntpData = (call p (subscribe_hk w) w).1 in
      let second : World SntpData = (call p (subscribe_cmd w) first).1 in
      let after_first : IsClear first = ground arith in
      let after_second : IsClear second = ground arith in
      fail_or-IsClear _ _ _ first after_first
        (fail_or-IsClear _ _ _ second after_second (open_socket-IsClear second after_second))

  -- `SNTP_Init` clears the counters itself, so it needs a history without counted calls only.
  init-IsClear :
      (w : World SntpData)
      → tally p w.calls ≡ zero_payload
      → reports p w.calls ≡ []
      → IsClear (init p w).1
  unfolding init prepare
  init-IsClear w fresh silent =
      fail_or-IsClear _ _ _ _ (ground arith)
        (fail_or-IsClear _ _ _ _ (ground arith) (subscribe-IsClear _ (ground arith)))

  -- The start leaves exact counters, from any memory.
  pub start-IsExact : (w : World SntpData) → w.calls ≡ [] → IsExact p (start p w).1
  unfolding start
  start-IsExact w fresh =
      let entered : World SntpData = (call p (Call.perf_log_entry perf_id) w).1 in
      ground (arith, init-IsClear entered)

  -- No counter is set by the start, and what memory held is cleared.
  pub start_cleared : (w : World SntpData) → w.calls ≡ [] → (start p w).1.state.cnts ≡ zero_payload
  unfolding start
  start_cleared w fresh =
      let entered : World SntpData = (call p (Call.perf_log_entry perf_id) w).1 in
      ground (arith, init-IsClear entered)
