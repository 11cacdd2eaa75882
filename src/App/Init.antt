-- ===== src/App/Init.antt =====
-- `SNTP_Init` of fsw/src/sntp.c.
pub mod Cases
pub mod Laws
pub mod PipeName
pub mod Keeps
use Prim.Native.String.{String, ◌++◌ as ◌++ˢ◌}
use cfe_sntp.Base.{
  Bool, List, ℕ, ◌-◌, not, [], ◌∷◌, ◌++◌, ℤ, is_negative, ◌==ℤ◌, Bytes, codes, take, replicate,
  to_u64, write, if◌then◌else◌,
}
use cfe_sntp.Telemetry.{zero_payload}
use cfe_sntp.Platform.{Platform, Call, Arg}
use cfe_sntp.App.Version.{version_string}
use cfe_sntp.World.{M, pure, ◌>>=◌, ◌>>◌, get, put, call, observe}
use cfe_sntp.App.{
  SntpData, cmd_mid, send_hk_mid, hk_tlm_mid, pipe_depth_max, sntp_port, sntp_stratum,
  startup_inf_eid,
}
use cfe_sntp.Socket.{init_udp_socket}

-- `strncpy(dst, src, n)`: the text, cut at `n` bytes or filled up with zeros.
abbrev pub strncpy : ℕ → Bytes → Bytes
strncpy n src = take n (src ++ replicate n 0)

-- The two statements that set `SNTP_Data.PipeName`.
unfoldable pub pipe_name : ℕ → Bytes
pipe_name size = write (size - 1) (0 ∷ []) (strncpy size (codes "SNTP_CMD_PIPE"))

-- The format of the startup event, in the build with cFE's time and in the other.
abbrev pub startup_format : Bool → String
startup_format use_cfe_time =
    let start : String =
      "cFE SNTP Server %s Initialized at port %d, running as stratum %d and serving " in
    let source : String = if use_cfe_time then "CFE UTC Time" else "system time" in
    start ++ˢ (source ++ˢ "\n")

abbrev pub startup_arguments : List Arg
startup_arguments = Arg.text version_string ∷ Arg.nat sntp_port ∷ Arg.nat sntp_stratum ∷ []

module _ (p : Platform) where
  -- The assignments before the first call.
  unfoldable pub prepare : M SntpData (Unit {0})
  prepare = do
    s ← get
    put (record s {
      run_status = p.cfe.app_run;
      cnts = zero_payload;
      pipe_depth = pipe_depth_max;
      pipe_name = pipe_name p.cfe.max_api_len;
    })

  -- `if (status != CFE_SUCCESS) { log; return status; }` before the rest.
  abbrev pub fail_or : String → ℤ → M SntpData ℤ → M SntpData ℤ
  fail_or text status rest =
      if not (status ==ℤ p.cfe.success)
      then (call p (Call.write_to_sys_log text (Arg.nat (to_u64 status) ∷ [])) >> pure status)
      else rest

  -- From the socket to the end.
  unfoldable pub open_socket : M SntpData ℤ
  open_socket = do
    fd ← init_udp_socket p sntp_port
    s ← get
    put (record s { sockfd = fd })
    if is_negative fd
        then (do
          call p (Call.write_to_sys_log "SNTP App: Error initializing UDP socket\n" [])
          pure p.cfe.external_resource_fail)
        else do
          call p (
              Call.send_information startup_inf_eid (startup_format p.use_cfe_time)
                startup_arguments)
          pure p.cfe.success

  -- The two subscriptions.
  unfoldable pub subscribe : M SntpData ℤ
  subscribe = do
    s ← get
    first ← call p (Call.subscribe (p.cfe.value_to_msg_id (send_hk_mid p)) s.command_pipe)
    fail_or "SNTP App: Error Subscribing to HK request, RC = 0x%08lX\n" first do
      second ← call p (Call.subscribe (p.cfe.value_to_msg_id (cmd_mid p)) s.command_pipe)
      fail_or "SNTP App: Error Subscribing to Command, RC = 0x%08lX\n" second open_socket

  -- The whole of it.
  unfoldable pub init : M SntpData ℤ
  init = do
    prepare
    registered ← call p Call.evs_register
    fail_or "SNTP App: Error Registering Events, RC = 0x%08lX\n" registered do
      s ← get
      put (record s {
        hk_tlm = p.cfe.msg_init s.hk_tlm (p.cfe.value_to_msg_id (hk_tlm_mid p)) p.cfe.hk_tlm_size;
      })
      created ← call p (Call.create_pipe s.pipe_depth s.pipe_name)
      pipe ← observe p.answers.pipe_id
      t ← get
      put (record t { command_pipe = pipe })
      fail_or "SNTP App: Error creating pipe, RC = 0x%08lX\n" created subscribe
