-- ===== src/App/Command.antt =====
-- The commands of the app: the handlers of fsw/src/sntp.c from `SNTP_ProcessCommandPacket` down.
pub mod Laws
use Prim.Native.String.{String}
use cfe_sntp.Base.{ℕ, ◌+◌, ◌%◌, ◌^◌, Bool, true, false, [], ◌∷◌, ℤ, Bytes, ◌==◌, if◌then◌else◌}
use cfe_sntp.Telemetry.{Payload, u8, zero_payload, noop_cc, reset_counters_cc}
use cfe_sntp.Platform.{Platform, Call, Arg, Address}
use cfe_sntp.App.Version.{app_version}
use cfe_sntp.World.{M, pure, ◌>>=◌, ◌>>◌, get, put, call, observe}
use cfe_sntp.App.{
  SntpData, update_cnts, cmd_mid, send_hk_mid, command_err_eid, commandnop_inf_eid,
  commandrst_inf_eid, invalid_msgid_err_eid, len_err_eid,
}

abbrev pub length_format : String
length_format = "Invalid Msg length: ID = 0x%X,  CC = %u, Len = %u, Expected = %u"

-- `SNTP_Data.cnts.CommandErrorCounter++` and `SNTP_Data.cnts.CommandCounter++`
abbrev pub count_error : Payload → Payload
count_error c = record c { command_error_counter = u8 (c.command_error_counter + 1) }

abbrev pub count_command : Payload → Payload
count_command c = record c { command_counter = u8 (c.command_counter + 1) }

module _ (p : Platform) where
  -- `sizeof(SNTP_NoArgsCmd_t)`, a struct of the header alone.
  abbrev pub no_args_cmd_size : ℕ
  no_args_cmd_size = p.cfe.command_header_size

  -- `SNTP_VerifyCmdLength`
  unfoldable pub verify_cmd_length : Bytes → ℕ → M SntpData Bool
  verify_cmd_length msg expected =
      let actual = p.cfe.get_size msg in
      let mid = p.cfe.msg_id_to_value (p.cfe.get_msg_id msg) in
      let arguments =
        Arg.nat (mid % 2 ^ 32)
        ∷ Arg.nat (p.cfe.get_fcn_code msg % 2 ^ 32)
        ∷ Arg.nat (actual % 2 ^ 32)
        ∷ Arg.nat (expected % 2 ^ 32)
        ∷ [] in
      if expected == actual then pure true else do
        call p (Call.send_error len_err_eid length_format arguments)
        update_cnts count_error
        pure false

  -- `SNTP_Noop`
  unfoldable pub noop : M SntpData ℤ
  noop = do
    update_cnts count_command
    call p (
        Call.send_information commandnop_inf_eid "SNTP: NOOP command %s"
          (Arg.text app_version ∷ []))
    pure p.cfe.success

  -- `SNTP_ResetCounters`
  unfoldable pub reset_counters : M SntpData ℤ
  reset_counters = do
    update_cnts (λ _. zero_payload)
    call p (Call.send_information commandrst_inf_eid "SNTP: RESET command" [])
    pure p.cfe.success

  -- `SNTP_ReportHousekeeping`
  unfoldable pub report_housekeeping : M SntpData ℤ
  report_housekeeping = do
    s ← get
    call p (Call.time_stamp_msg Address.hk_tlm)
    stamp ← observe p.cfe.time_stamp_msg
    let packet = stamp (record (s.hk_tlm) { payload = s.cnts })
    put (record s { hk_tlm = packet })
    call p (Call.transmit_msg Address.hk_tlm true packet)
    pure p.cfe.success

  -- `if (SNTP_VerifyCmdLength(...)) handler(...)`
  abbrev pub when_length : Bytes → M SntpData ℤ → M SntpData (Unit {0})
  when_length msg handler = do
    valid ← verify_cmd_length msg no_args_cmd_size
    if valid then (handler >> pure tt) else pure tt

  -- `SNTP_ProcessGroundCommand`
  unfoldable pub process_ground_command : Bytes → M SntpData (Unit {0})
  process_ground_command msg =
      let code = p.cfe.get_fcn_code msg in
      if code == noop_cc
      then when_length msg noop
      else if code == reset_counters_cc
      then when_length msg reset_counters
      else (call p (
            Call.send_error command_err_eid "Invalid ground command code: CC = %d"
              (Arg.nat code ∷ []))
          >> pure tt)

  -- `SNTP_ProcessCommandPacket`
  unfoldable pub process_command_packet : Bytes → M SntpData (Unit {0})
  process_command_packet msg =
      let mid = p.cfe.msg_id_to_value (p.cfe.get_msg_id msg) in
      if mid == cmd_mid p
      then process_ground_command msg
      else if mid == send_hk_mid p
      then (report_housekeeping >> pure tt)
      else (call p (
            Call.send_error invalid_msgid_err_eid "SNTP: invalid command packet,MID = 0x%x"
              (Arg.nat (mid % 2 ^ 32) ∷ []))
          >> pure tt)
