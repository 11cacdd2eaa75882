-- ===== src/UnitTest/Cases.antt =====
-- The test cases of unit-test/coveragetest/coveragetest_sample_app.c whose function exists. A test
-- gives the verdicts of its assertions, in order. What it sets up in the stubs of cFE's message
-- functions is in the messages that it is given, and a return code that it sets in the platform.
use Prim.Native.String.{String}
use cfe_sntp.Base.{
  ℕ, suc, Bool, true, false, List, [], ◌∷◌, ◌++◌, Option, none, some, Bytes, ℤ, ◌==◌, ◌==ℤ◌,
}
use cfe_sntp.Platform.{Platform, Call, Address}
use cfe_sntp.World.{World}
use cfe_sntp.App.{
  pipe_err_eid, SntpData, commandnop_inf_eid, commandrst_inf_eid, command_err_eid, len_err_eid,
  invalid_msgid_err_eid,
}
use cfe_sntp.App.Command.{
  verify_cmd_length, noop, reset_counters, process_ground_command, process_command_packet,
}
use cfe_sntp.App.Init.{init}
use cfe_sntp.App.Main.{sntp_main}
use cfe_sntp.App.Rounds.{polls, exits}
use cfe_sntp.UnitTest.{CheckEvent, Stub, check_event_setup, watch}

-- `UT_CHECKEVENT_SETUP`, which makes the name of the event of its second argument.
abbrev pub set_check : ℕ → String → Option String → CheckEvent
set_check expected name format = (check_event_setup expected name format).1

-- Calls of the stubs that the tests count.
abbrev pub sys_logs : List Call → ℕ
sys_logs [] = 0
sys_logs (Call.write_to_sys_log format arguments ∷ h) = suc (sys_logs h)
sys_logs (_ ∷ h) = sys_logs h

abbrev pub transmissions : List Call → ℕ
transmissions [] = 0
transmissions (Call.transmit_msg address counted packet ∷ h) = suc (transmissions h)
transmissions (_ ∷ h) = transmissions h

abbrev pub time_stamps : List Call → ℕ
time_stamps [] = 0
time_stamps (Call.time_stamp_msg address ∷ h) = suc (time_stamps h)
time_stamps (_ ∷ h) = time_stamps h

-- The addresses that the tests capture from these calls: the first ones, since the stub's buffer is
-- one variable, which holds `unset` before.
abbrev pub sent_address : Address → List Call → Address
sent_address unset [] = unset
sent_address unset (Call.transmit_msg address counted packet ∷ h) = sent_address address h
sent_address unset (_ ∷ h) = sent_address unset h

abbrev pub stamped_address : Address → List Call → Address
stamped_address unset [] = unset
stamped_address unset (Call.time_stamp_msg address ∷ h) = stamped_address address h
stamped_address unset (_ ∷ h) = stamped_address unset h

abbrev pub is_hk_tlm : Address → Bool
is_hk_tlm Address.hk_tlm = true
is_hk_tlm (Address.elsewhere place) = false

abbrev pub table_calls : List Call → ℕ
table_calls [] = 0
table_calls (Call.manage_table ∷ h) = suc (table_calls h)
table_calls (_ ∷ h) = table_calls h

module _ (stub : Stub) (p : Platform) where
  -- `Test_SNTP_VerifyCmdLength`
  unfoldable pub test_verify_cmd_length : Bytes → World SntpData → List Bool
  test_verify_cmd_length msg w =
      let check =
        set_check len_err_eid "SNTP_LEN_ERR_EID"
          (some "Invalid Msg length: ID = 0x%X,  CC = %u, Len = %u, Expected = %u") in
      let matching = watch stub (verify_cmd_length p msg 1) check w in
      let mismatch = watch stub (verify_cmd_length p msg 2) matching.1 matching.2 in
      (matching.1.match_count == 0) ∷ (mismatch.1.match_count == 1) ∷ []

  -- `Test_SNTP_NoopCmd`
  unfoldable pub test_noop_cmd : World SntpData → List Bool
  test_noop_cmd w =
      let check = set_check commandnop_inf_eid "SNTP_COMMANDNOP_INF_EID" none in
      let r = watch stub (noop p) check w in (r.0 ==ℤ p.cfe.success) ∷ (r.1.match_count == 1) ∷ []

  -- `Test_SNTP_ResetCounters`
  unfoldable pub test_reset_counters : World SntpData → List Bool
  test_reset_counters w =
      let check =
        set_check commandrst_inf_eid "SNTP_COMMANDRST_INF_EID" (some "SAMPLE: RESET command") in
      let r = watch stub (reset_counters p) check w in
      (r.0 ==ℤ p.cfe.success) ∷ (r.1.match_count == 1) ∷ []

  -- `Test_SNTP_ProcessGroundCommand`, with a message for each command code that it sets.
  unfoldable pub test_process_ground_command :
      Bytes → Bytes → Bytes → Bytes → World SntpData → List Bool
  test_process_ground_command noop_msg reset_msg process_msg invalid_msg w =
      let check = set_check commandnop_inf_eid "SNTP_COMMANDNOP_INF_EID" none in
      let first = watch stub (process_ground_command p noop_msg) check w in
      let check' = set_check commandrst_inf_eid "SNTP_COMMANDRST_INF_EID" none in
      let second = watch stub (process_ground_command p reset_msg) check' first.2 in
      let third = watch stub (process_ground_command p process_msg) second.1 second.2 in
      let check'' =
        set_check command_err_eid "SNTP_COMMAND_ERR_EID"
          (some "Invalid ground command code: CC = %d") in
      let fourth = watch stub (process_ground_command p invalid_msg) check'' third.2 in
      (first.1.match_count == 1) ∷ (second.1.match_count == 1) ∷ (fourth.1.match_count == 1) ∷ []

  -- `Test_SNTP_ProcessCommandPacket`, with a message for each message id that it sets.
  unfoldable pub test_process_command_packet : Bytes → Bytes → Bytes → World SntpData → List Bool
  test_process_command_packet cmd_msg hk_msg invalid_msg w =
      let check =
        set_check invalid_msgid_err_eid "SNTP_INVALID_MSGID_ERR_EID"
          (some "SAMPLE: invalid command packet,MID = 0x%x") in
      let first = watch stub (process_command_packet p cmd_msg) check w in
      let second = watch stub (process_command_packet p hk_msg) first.1 first.2 in
      let third = watch stub (process_command_packet p invalid_msg) second.1 second.2 in
      (third.1.match_count == 1) ∷ []

  -- `Test_SNTP_ReportHousekeeping`, with what its two variables for addresses hold before.
  unfoldable pub test_report_housekeeping : Bytes → Address → Address → World SntpData → List Bool
  test_report_housekeeping msg msg_send msg_timestamp w =
      let h = (process_command_packet p msg (record w { calls = [] })).1.calls in
      (transmissions h == 1)
      ∷ is_hk_tlm (sent_address msg_send h)
      ∷ (time_stamps h == 1)
      ∷ is_hk_tlm (stamped_address msg_timestamp h)
      ∷ (table_calls h == 1)
      ∷ []

-- A step of `Test_SNTP_Init`, on the platform that it sets up: the return code, and the entries of
-- the system log since the test began.
unfoldable pub init_case : Platform → ℤ → ℕ → World SntpData → List Bool × World SntpData
init_case p code logs w =
    let r = init p w in ((r.0 ==ℤ code) ∷ (sys_logs r.1.calls == logs) ∷ [], r.1)

-- The platforms and the return codes that `Test_SNTP_Init` sets up.
pub record InitCases : Type 0 where
  pub nominal : Platform
  pub no_events : Platform
  pub no_pipe : Platform
  pub no_first : Platform
  pub no_second : Platform
  pub no_table : Platform
  pub invalid_parameter : ℤ
  pub bad_argument : ℤ
  pub invalid_options : ℤ

-- `Test_SNTP_Init`
unfoldable pub test_init : InitCases → World SntpData → List Bool
unfolding init_case
test_init c w =
    let first = init c.nominal (record w { calls = [] }) in
    let second = init_case c.no_events c.invalid_parameter 1 first.1 in
    let third = init_case c.no_pipe c.bad_argument 2 second.1 in
    let fourth = init_case c.no_first c.bad_argument 3 third.1 in
    let fifth = init_case c.no_second c.bad_argument 4 fourth.1 in
    let sixth = init_case c.no_table c.invalid_options 5 fifth.1 in
    (first.0 ==ℤ c.nominal.cfe.success)
    ∷ (second.0 ++ (third.0 ++ (fourth.0 ++ (fifth.0 ++ sixth.0))))

-- The platforms that `Test_SNTP_Main` sets up, one for each of its runs.
pub record MainCases : Type 0 where
  pub nominal : Platform
  pub no_events : Platform
  pub looping : Platform
  pub no_message : Platform

-- `Test_SNTP_Main`, with fuel for the tests of the run loop in each run.
unfoldable pub test_main : Stub → MainCases → ℕ → World SntpData → List Bool
test_main stub c fuel w =
    let first = (sntp_main c.nominal fuel (record w { calls = [] })).1 in
    let second = (sntp_main c.no_events fuel first).1 in
    let third = (sntp_main c.looping fuel second).1 in
    let check =
      set_check pipe_err_eid "SNTP_PIPE_ERR_EID"
        (some "SAMPLE APP: SB Pipe Read Error, App Will Exit") in
    let fourth = watch stub (sntp_main c.no_message fuel) check third in
    (exits first.calls == 1)
    ∷ (second.state.run_status == c.no_events.cfe.app_error)
    ∷ (polls third.calls == 1)
    ∷ (fourth.1.match_count == 1)
    ∷ []
