-- ===== src/Tests/UnitTest.antt =====
-- The unit tests on small platforms, and the theorems on them at concrete inputs.
use cfe_sntp.Base.{
  ◌≡◌, refl, Bool, true, false, List, [], ◌∷◌, some, none, ℤ, pos, negsuc, ◌==◌, if◌then◌else◌,
  arith,
}
use cfe_sntp.Platform.{Platform, Call, Address}
use cfe_sntp.Platform.Example.{play}
use cfe_sntp.App.{commandnop_inf_eid}
use cfe_sntp.App.Command.Laws.{noop_event, reset_event}
use cfe_sntp.App.Trace.{tests}
use cfe_sntp.UnitTest.{CheckEvent, Stub, IsStub, run_hook}
use cfe_sntp.UnitTest.Cases.{
  InitCases, MainCases, test_verify_cmd_length, test_reset_counters, test_report_housekeeping,
}
use cfe_sntp.UnitTest.Laws.{run_hook-matches}
use cfe_sntp.UnitTest.Verdicts.{
  test_verify_cmd_length_passes, test_reset_counters_fails, test_report_housekeeping_fails,
}
use cfe_sntp.UnitTest.Init as Init
use cfe_sntp.UnitTest.Init.{Returns}
use cfe_sntp.UnitTest.Main as Main
use cfe_sntp.UnitTest.Declared.{Declared, test_process_cc, test_tbl_validation_func, test_get_crc}
use cfe_sntp.UnitTest.Suite.{
  Fixture, IsFixture, all_true, outcomes, ut_test_setup, outcomes-ut_test_setup,
}
use cfe_sntp.Tests.Data.{blank, example, script, hk_msg}

abbrev stub : Stub
stub = record {
  context = λ eid format. record { arg_count = 3; event_id = eid; spec = some format };
}

stub-IsStub : IsStub stub
stub-IsStub = record {
  has_arguments = λ eid format. omega arith;
  passes_id = λ eid format. refl;
  passes_format = λ eid format. refl;
}

abbrev noop_check : CheckEvent
noop_check = record { expected_event = commandnop_inf_eid; match_count = 0; expected_format = none }

run_hook-matches_example :
    run_hook stub noop_check (noop_event ∷ reset_event ∷ noop_event ∷ [])
    ≡ record noop_check { match_count = 2 }
run_hook-matches_example =
    run_hook-matches stub stub-IsStub noop_check (noop_event ∷ reset_event ∷ noop_event ∷ [])
      (omega arith)

test_verify_cmd_length_run : test_verify_cmd_length stub example (0 ∷ []) blank ≡ true ∷ true ∷ []
test_verify_cmd_length_run =
    test_verify_cmd_length_passes stub stub-IsStub example (0 ∷ []) blank refl

test_reset_counters_run : test_reset_counters stub example blank ≡ true ∷ false ∷ []
test_reset_counters_run = test_reset_counters_fails stub stub-IsStub example blank

test_report_housekeeping_run :
    test_report_housekeeping stub example hk_msg (Address.elsewhere 0) (Address.elsewhere 1) blank
    ≡ true ∷ true ∷ true ∷ true ∷ false ∷ []
test_report_housekeeping_run =
    test_report_housekeeping_fails stub stub-IsStub example hk_msg (Address.elsewhere 0)
      (Address.elsewhere 1) blank refl

-- A platform whose steps of the initialisation return these codes.
abbrev step_codes : ℤ → ℤ → ℤ → ℤ → List Call → ℤ
step_codes events pipe first second (Call.socket ∷ h) = pos 5
step_codes events pipe first second (Call.evs_register ∷ h) = events
step_codes events pipe first second (Call.create_pipe depth name ∷ h) = pipe
step_codes events pipe first second (Call.subscribe mid to ∷ h) =
    if mid == 0x1831 then first else second
step_codes events pipe first second _ = pos 0

abbrev stepping : ℤ → ℤ → ℤ → ℤ → Platform
stepping events pipe first second = record example {
  answers = record (play script) { ret = step_codes events pipe first second };
}

stepping-Returns :
    (events pipe first second : ℤ)
    → Returns (stepping events pipe first second) events pipe first second
stepping-Returns events pipe first second = record {
  returns_events = λ h. refl;
  returns_pipe = λ depth name h. refl;
  returns_first = λ to h. refl;
  returns_second = λ to h. refl;
}

abbrev init_cases : InitCases
init_cases = record {
  nominal = stepping (pos 0) (pos 0) (pos 0) (pos 0);
  no_events = stepping (negsuc 1) (pos 0) (pos 0) (pos 0);
  no_pipe = stepping (pos 0) (negsuc 2) (pos 0) (pos 0);
  no_first = stepping (pos 0) (pos 0) (negsuc 2) (pos 0);
  no_second = stepping (pos 0) (pos 0) (pos 0) (negsuc 2);
  no_table = stepping (pos 0) (pos 0) (pos 0) (pos 0);
  invalid_parameter = negsuc 1;
  bad_argument = negsuc 2;
  invalid_options = negsuc 3;
}

init_cases-IsSetUp : Init.IsSetUp init_cases
init_cases-IsSetUp = record {
  nominal = stepping-Returns _ _ _ _;
  no_events = stepping-Returns _ _ _ _;
  no_pipe = stepping-Returns _ _ _ _;
  no_first = stepping-Returns _ _ _ _;
  no_second = stepping-Returns _ _ _ _;
  no_table = stepping-Returns _ _ _ _;
  fails_events = ground arith;
  fails_pipe = ground arith;
  fails_first = ground arith;
  fails_second = ground arith;
  fails_table = ground arith;
  other_failure = ground arith;
}

-- The run loop grants one round in the third run.
abbrev third_only : List Call → Bool
third_only (Call.run_loop status ∷ h) = tests h == 2
third_only _ = false

abbrev never : List Call → Bool
never h = false

abbrev main_cases : MainCases
main_cases = record {
  nominal = record example { answers = record (play script) { keeps_running = never } };
  no_events = record example {
    answers = record (play script) {
      keeps_running = never;
      ret = step_codes (negsuc 1) (pos 0) (pos 0) (pos 0);
    };
  };
  looping = record example { answers = record (play script) { keeps_running = third_only } };
  no_message = example;
}

main_cases-IsSetUp : Main.IsSetUp main_cases
main_cases-IsSetUp = record {
  refuses_first = λ status h. refl;
  refuses_second = λ status h. refl;
  leaves_status = λ status h. refl;
  fails_events = λ h. ground arith;
  grants_one = λ status h. refl;
}

abbrev fixture : Fixture
fixture = record {
  main = main_cases;
  init = init_cases;
  platform = example;
  no_table = example;
  unregistered = negsuc 9;
  noop_msg = 0x18 ∷ 0x30 ∷ 0 ∷ 0 ∷ 0 ∷ 0 ∷ 0 ∷ 0 ∷ [];
  reset_msg = 0x18 ∷ 0x30 ∷ 1 ∷ 0 ∷ 0 ∷ 0 ∷ 0 ∷ 0 ∷ [];
  process_msg = 0x18 ∷ 0x30 ∷ 2 ∷ [];
  invalid_msg = 0x18 ∷ 0x30 ∷ 1000 ∷ [];
  hk_msg = hk_msg;
  unknown_msg = 1 ∷ 2 ∷ [];
  msg_send = Address.elsewhere 0;
  msg_timestamp = Address.elsewhere 1;
  one_byte = 0 ∷ [];
  world = λ test. blank;
}

fixture-IsFixture : IsFixture fixture
fixture-IsFixture = record {
  main_set_up = main_cases-IsSetUp;
  init_set_up = init_cases-IsSetUp;
  noop_code = refl;
  noop_size = refl;
  reset_code = refl;
  reset_size = refl;
  invalid_code = refl;
  hk_id = refl;
  one_size = refl;
}

-- Functions for the ones that are declared only: each calls what its test counts.
abbrev declared : Declared
declared = record {
  process = λ p t w.
      (pos 0, record w { calls = Call.sample_lib_function ∷ Call.get_table_address ∷ w.calls });
  tbl_validation_func = λ p t w. (pos 0, w);
  get_crc = λ p name w. (tt, record w { calls = Call.write_to_sys_log "Error" [] ∷ w.calls });
}

outcomes-ut_test_setup_example :
    outcomes (ut_test_setup stub declared 2 fixture)
    ≡ ("SNTP_Main", false)
      ∷ ("SNTP_Init", false)
      ∷ ("SNTP_ProcessCommandPacket", false)
      ∷ ("SNTP_ProcessGroundCommand", true)
      ∷ ("SNTP_ReportHousekeeping", false)
      ∷ ("SNTP_NoopCmd", true)
      ∷ ("SNTP_ResetCounters", false)
      ∷ ("SNTP_ProcessCC", all_true (test_process_cc declared example example (negsuc 9) blank))
      ∷ ("SNTP_VerifyCmdLength", true)
      ∷ ("SNTP_TblValidationFunc", all_true (test_tbl_validation_func declared example blank))
      ∷ ("SNTP_GetCrc", all_true (test_get_crc declared example example blank))
      ∷ []
outcomes-ut_test_setup_example =
    outcomes-ut_test_setup stub stub-IsStub declared fixture fixture-IsFixture 0
