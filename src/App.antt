-- ===== src/App.antt =====
-- The state of the app, `SNTP_Data_t` of fsw/src/sntp.h, and its numbers: event ids
-- (fsw/src/sntp_events.h), message ids (fsw/platform_inc/sntp_msgids.h) and the performance id.
pub mod Version
pub mod Table
pub mod Command
pub mod Init
pub mod Main
pub mod Tally
pub mod Trace
pub mod Replies
pub mod Responses
pub mod Pipe
pub mod Server
pub mod Rounds
pub mod Events
pub mod Phases
use cfe_sntp.Base.{ℕ, ◌+◌, ℤ, Bytes}
use cfe_sntp.Telemetry.{Payload, HkTlm}
use cfe_sntp.Platform.{Platform}
use cfe_sntp.World.{M}

pub record SntpData : Type 0 where
  pub cnts : Payload
  pub hk_tlm : HkTlm
  pub run_status : ℕ
  pub command_pipe : ℕ
  pub pipe_name : Bytes
  pub pipe_depth : ℕ
  pub sockfd : ℤ

abbrev pub reserved_eid : ℕ
reserved_eid = 0

abbrev pub startup_inf_eid : ℕ
startup_inf_eid = 1

abbrev pub command_err_eid : ℕ
command_err_eid = 2

abbrev pub commandnop_inf_eid : ℕ
commandnop_inf_eid = 3

abbrev pub commandrst_inf_eid : ℕ
commandrst_inf_eid = 4

abbrev pub invalid_msgid_err_eid : ℕ
invalid_msgid_err_eid = 5

abbrev pub len_err_eid : ℕ
len_err_eid = 6

-- No code sends it.
abbrev pub pipe_err_eid : ℕ
pipe_err_eid = 7

abbrev pub pipe_depth_max : ℕ
pipe_depth_max = 32

abbrev pub perf_id : ℕ
perf_id = 93

abbrev pub sntp_port : ℕ
sntp_port = 123

abbrev pub sntp_stratum : ℕ
sntp_stratum = 15

module _ (p : Platform) where
  abbrev pub cmd_mid : ℕ
  cmd_mid = p.cfe.cmd_mid_base + 0x30

  abbrev pub send_hk_mid : ℕ
  send_hk_mid = p.cfe.cmd_mid_base + 0x31

  abbrev pub hk_tlm_mid : ℕ
  hk_tlm_mid = p.cfe.tlm_mid_base + 0x30

-- A change of the counters.
abbrev pub update_cnts : (Payload → Payload) → M SntpData (Unit {0})
update_cnts f w = (tt, record w { state = record (w.state) { cnts = f (w.state.cnts) } })
