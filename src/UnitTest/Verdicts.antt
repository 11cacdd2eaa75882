-- ===== src/UnitTest/Verdicts.antt =====
-- The other test cases of unit-test/coveragetest/coveragetest_sample_app.c.
use cfe_sntp.Base.{ℕ, ◌≡◌, ◌≢◌, true, false, [], ◌∷◌, none, some, Bytes, ==ℤ_refl, arith}
use cfe_sntp.Telemetry.{noop_cc, reset_counters_cc}
use cfe_sntp.Platform.{Platform, Address}
use cfe_sntp.World.{World}
use cfe_sntp.App.{
  commandnop_inf_eid, commandrst_inf_eid, command_err_eid, invalid_msgid_err_eid, len_err_eid,
  SntpData, send_hk_mid,
}
use cfe_sntp.App.Command.{
  length_format, verify_cmd_length, noop, reset_counters, report_housekeeping,
  process_ground_command, process_command_packet,
}
use cfe_sntp.App.Command.Laws.{noop_event, reset_event, code_event}
use cfe_sntp.UnitTest.{Stub, IsStub, check_event_setup, run_hook, watch}
use cfe_sntp.UnitTest.Cases.{
  set_check, test_verify_cmd_length, test_noop_cmd, test_reset_counters,
  test_process_ground_command, test_process_command_packet, test_report_housekeeping,
}
use cfe_sntp.UnitTest.Laws.{matches, run_hook-matches}

module _ (stub : Stub) (is_stub : IsStub stub) (p : Platform) where
  -- `Test_SNTP_VerifyCmdLength` passes, on a message of size 1.
  pub test_verify_cmd_length_passes :
      (msg : Bytes) (w : World SntpData)
      → p.cfe.get_size msg ≡ 1
      → test_verify_cmd_length stub p msg w ≡ true ∷ true ∷ []
  unfolding test_verify_cmd_length watch verify_cmd_length check_event_setup
  test_verify_cmd_length_passes msg w size =
      let check = set_check len_err_eid "SNTP_LEN_ERR_EID" (some length_format) in
      let mismatch = verify_cmd_length p msg 2 (record w { calls = [] }) in
      ground (
        arith,
        run_hook-matches stub is_stub check [],
        run_hook-matches stub is_stub check mismatch.1.calls,
      )

  -- `Test_SNTP_NoopCmd` passes.
  pub test_noop_cmd_passes : (w : World SntpData) → test_noop_cmd stub p w ≡ true ∷ true ∷ []
  unfolding test_noop_cmd watch noop check_event_setup
  test_noop_cmd_passes w = ground (
    arith,
    run_hook-matches stub is_stub (set_check commandnop_inf_eid "SNTP_COMMANDNOP_INF_EID" none)
        (noop p (record w { calls = [] })).1.calls,
    ==ℤ_refl p.cfe.success,
  )

  -- `Test_SNTP_ResetCounters` fails: the command succeeds, and its event has another format than the
  -- test expects.
  pub test_reset_counters_fails :
      (w : World SntpData) → test_reset_counters stub p w ≡ true ∷ false ∷ []
  unfolding test_reset_counters watch reset_counters check_event_setup
  test_reset_counters_fails w = ground (
    arith,
    run_hook-matches stub is_stub
        (set_check commandrst_inf_eid "SNTP_COMMANDRST_INF_EID" (some "SAMPLE: RESET command"))
        (reset_event ∷ []),
    ==ℤ_refl p.cfe.success,
  )

  -- `w` as a function that is watched starts in it.
  abbrev fresh : World SntpData → World SntpData
  fresh w = record w { calls = [] }

  module _ (msg : Bytes) (w : World SntpData) where
    noop_calls :
        p.cfe.get_fcn_code msg ≡ noop_cc
        → p.cfe.get_size msg ≡ p.cfe.command_header_size
        → (process_ground_command p msg (fresh w)).1.calls ≡ noop_event ∷ []
    unfolding process_ground_command verify_cmd_length noop
    noop_calls code size = ground arith

    reset_calls :
        p.cfe.get_fcn_code msg ≡ reset_counters_cc
        → p.cfe.get_size msg ≡ p.cfe.command_header_size
        → (process_ground_command p msg (fresh w)).1.calls ≡ reset_event ∷ []
    unfolding process_ground_command verify_cmd_length reset_counters
    reset_calls code size = ground arith

    invalid_calls :
        (cc : ℕ)
        → p.cfe.get_fcn_code msg ≡ cc
        → cc ≢ noop_cc
        → cc ≢ reset_counters_cc
        → (process_ground_command p msg (fresh w)).1.calls ≡ code_event cc ∷ []
    unfolding process_ground_command
    invalid_calls cc code other other' = ground arith

  -- `Test_SNTP_ProcessGroundCommand` passes, on messages with the four codes, the first two of them
  -- of the size of a command.
  pub test_process_ground_command_passes :
      (noop_msg reset_msg process_msg invalid_msg : Bytes) (w : World SntpData)
      → p.cfe.get_fcn_code noop_msg ≡ noop_cc
      → p.cfe.get_size noop_msg ≡ p.cfe.command_header_size
      → p.cfe.get_fcn_code reset_msg ≡ reset_counters_cc
      → p.cfe.get_size reset_msg ≡ p.cfe.command_header_size
      → p.cfe.get_fcn_code invalid_msg ≡ 1000
      → test_process_ground_command stub p noop_msg reset_msg process_msg invalid_msg w
        ≡ true ∷ true ∷ true ∷ []
  unfolding test_process_ground_command watch check_event_setup
  test_process_ground_command_passes noop_msg reset_msg process_msg invalid_msg w code size code'
        size' code'' =
      let w1 = (process_ground_command p noop_msg (fresh w)).1 in
      let w2 = (process_ground_command p reset_msg (fresh w1)).1 in
      let w3 = (process_ground_command p process_msg (fresh w2)).1 in
      ground (
        arith,
        noop_calls noop_msg w code size,
        reset_calls reset_msg w1 code' size',
        invalid_calls invalid_msg w3 1000 code'' (omega arith) (omega arith),
        run_hook-matches stub is_stub (set_check commandnop_inf_eid "SNTP_COMMANDNOP_INF_EID" none)
            (noop_event ∷ []),
        run_hook-matches stub is_stub (set_check commandrst_inf_eid "SNTP_COMMANDRST_INF_EID" none)
            (reset_event ∷ []),
        run_hook-matches stub is_stub
            (set_check command_err_eid "SNTP_COMMAND_ERR_EID"
              (some "Invalid ground command code: CC = %d"))
            (code_event 1000 ∷ []),
      )

  no_sample_event :
      (msg : Bytes) (w : World SntpData)
      → matches invalid_msgid_err_eid
          (some "SAMPLE: invalid command packet,MID = 0x%x")
          (process_command_packet p msg (fresh w)).1.calls
        ≡ 0
  unfolding process_command_packet process_ground_command report_housekeeping verify_cmd_length noop
      reset_counters
  no_sample_event msg w = ground arith

  -- `Test_SNTP_ProcessCommandPacket` fails, whatever its messages hold: no event has the format that
  -- it expects.
  pub test_process_command_packet_fails :
      (cmd_msg hk_msg invalid_msg : Bytes) (w : World SntpData)
      → test_process_command_packet stub p cmd_msg hk_msg invalid_msg w ≡ false ∷ []
  unfolding test_process_command_packet watch check_event_setup
  test_process_command_packet_fails cmd_msg hk_msg invalid_msg w =
      let format = some "SAMPLE: invalid command packet,MID = 0x%x" in
      let check = set_check invalid_msgid_err_eid "SNTP_INVALID_MSGID_ERR_EID" format in
      let w1 = (process_command_packet p cmd_msg (fresh w)).1 in
      let w2 = (process_command_packet p hk_msg (fresh w1)).1 in
      let w3 = (process_command_packet p invalid_msg (fresh w2)).1 in
      let check1 = run_hook stub check w1.calls in
      let check2 = run_hook stub check1 w2.calls in
      ground (
        arith,
        no_sample_event cmd_msg w,
        no_sample_event hk_msg w1,
        no_sample_event invalid_msg w2,
        run_hook-matches stub is_stub check w1.calls,
        run_hook-matches stub is_stub check1 w2.calls,
        run_hook-matches stub is_stub check2 w3.calls,
      )

  -- `Test_SNTP_ReportHousekeeping` fails in its last assertion alone: the packet of `SNTP_Data` is
  -- sent once and stamped once, and no table is managed.
  pub test_report_housekeeping_fails :
      (msg : Bytes) (msg_send msg_timestamp : Address) (w : World SntpData)
      → p.cfe.msg_id_to_value (p.cfe.get_msg_id msg) ≡ send_hk_mid p
      → test_report_housekeeping stub p msg msg_send msg_timestamp w
        ≡ true ∷ true ∷ true ∷ true ∷ false ∷ []
  unfolding test_report_housekeeping process_command_packet report_housekeeping
  test_report_housekeeping_fails msg msg_send msg_timestamp w housekeeping = ground arith
