-- ===== src/UnitTest/Suite.antt =====
-- The list of tests that `UtTest_Setup` of unit-test/coveragetest/coveragetest_sample_app.c registers,
-- and their outcomes.
use Prim.Native.String.{String}
use cfe_sntp.Base.{ℕ, ◌≡◌, Bool, true, false, ◌&&◌, List, [], ◌∷◌, Bytes, ℤ, suc, refl, arith}
use cfe_sntp.Telemetry.{noop_cc, reset_counters_cc}
use cfe_sntp.Platform.{Platform, Address}
use cfe_sntp.World.{World}
use cfe_sntp.App.{SntpData, send_hk_mid}
use cfe_sntp.UnitTest.{Stub, IsStub}
use cfe_sntp.UnitTest.Cases.{
  InitCases, MainCases, test_verify_cmd_length, test_noop_cmd, test_reset_counters,
  test_process_ground_command, test_process_command_packet, test_report_housekeeping, test_init,
  test_main,
}
use cfe_sntp.UnitTest.Declared.{Declared, test_process_cc, test_tbl_validation_func, test_get_crc}
use cfe_sntp.UnitTest.Init as Init
use cfe_sntp.UnitTest.Main as Main
use cfe_sntp.UnitTest.Verdicts.{
  test_verify_cmd_length_passes, test_noop_cmd_passes, test_reset_counters_fails,
  test_process_ground_command_passes, test_process_command_packet_fails,
  test_report_housekeeping_fails,
}

-- What the tests set up: platforms, messages, and the codes that their stubs return. `world` is what
-- the globals hold before each test, numbered from 0: a test leaves them as they are, and only the
-- stubs are reset.
pub record Fixture : Type 0 where
  pub main : MainCases
  pub init : InitCases
  pub platform : Platform
  pub no_table : Platform
  pub unregistered : ℤ
  pub noop_msg : Bytes
  pub reset_msg : Bytes
  pub process_msg : Bytes
  pub invalid_msg : Bytes
  pub hk_msg : Bytes
  pub unknown_msg : Bytes
  pub msg_send : Address
  pub msg_timestamp : Address
  pub one_byte : Bytes
  pub world : ℕ → World SntpData

-- A test and the verdicts of its assertions. `ADD_TEST` makes the name of its argument.
abbrev pub add_test : String → List Bool → String × List Bool
add_test name verdicts = (name, verdicts)

abbrev pub all_true : List Bool → Bool
all_true [] = true
all_true (b ∷ bs) = b && all_true bs

-- Each test with whether it passes.
abbrev pub outcomes : List (String × List Bool) → List (String × Bool)
outcomes [] = []
outcomes ((name, verdicts) ∷ tests) = (name, all_true verdicts) ∷ outcomes tests

module _ (stub : Stub) (d : Declared) (fuel : ℕ) (f : Fixture) where
  -- `UtTest_Setup`
  unfoldable pub ut_test_setup : List (String × List Bool)
  ut_test_setup =
      add_test "SNTP_Main" (test_main stub f.main fuel (f.world 0))
      ∷ add_test "SNTP_Init" (test_init f.init (f.world 1))
      ∷ add_test "SNTP_ProcessCommandPacket" (
          test_process_command_packet stub f.platform f.noop_msg f.hk_msg f.unknown_msg (f.world 2))
      ∷ add_test "SNTP_ProcessGroundCommand" (
          test_process_ground_command stub f.platform f.noop_msg f.reset_msg f.process_msg
            f.invalid_msg (f.world 3))
      ∷ add_test "SNTP_ReportHousekeeping"
          (test_report_housekeeping stub f.platform f.hk_msg f.msg_send f.msg_timestamp (f.world 4))
      ∷ add_test "SNTP_NoopCmd" (test_noop_cmd stub f.platform (f.world 5))
      ∷ add_test "SNTP_ResetCounters" (test_reset_counters stub f.platform (f.world 6))
      ∷ add_test "SNTP_ProcessCC"
          (test_process_cc d f.platform f.no_table f.unregistered (f.world 7))
      ∷ add_test "SNTP_VerifyCmdLength"
          (test_verify_cmd_length stub f.platform f.one_byte (f.world 8))
      ∷ add_test "SNTP_TblValidationFunc" (test_tbl_validation_func d f.platform (f.world 9))
      ∷ add_test "SNTP_GetCrc" (test_get_crc d f.no_table f.platform (f.world 10))
      ∷ []

-- The platforms and messages are those that the tests ask for.
pub record IsFixture (f : Fixture) : Type 0 where
  pub main_set_up : Main.IsSetUp f.main
  pub init_set_up : Init.IsSetUp f.init
  pub noop_code : f.platform.cfe.get_fcn_code f.noop_msg ≡ noop_cc
  pub noop_size : f.platform.cfe.get_size f.noop_msg ≡ f.platform.cfe.command_header_size
  pub reset_code : f.platform.cfe.get_fcn_code f.reset_msg ≡ reset_counters_cc
  pub reset_size : f.platform.cfe.get_size f.reset_msg ≡ f.platform.cfe.command_header_size
  pub invalid_code : f.platform.cfe.get_fcn_code f.invalid_msg ≡ 1000
  pub hk_id :
      f.platform.cfe.msg_id_to_value (f.platform.cfe.get_msg_id f.hk_msg) ≡ send_hk_mid f.platform
  pub one_size : f.platform.cfe.get_size f.one_byte ≡ 1

one_false :
    (a b c d e g : Bool)
    → all_true (a ∷ true ∷ b ∷ true ∷ c ∷ true ∷ d ∷ true ∷ e ∷ false ∷ g ∷ []) ≡ false
one_false a b c d e g = ground arith

test_init_fails :
    (c : InitCases) (set_up : Init.IsSetUp c) (w : World SntpData)
    → all_true (test_init c w) ≡ false
test_init_fails c set_up w =
    let (n, l1, l2, l3, l4, l5, verdicts) = Init.test_init_verdicts c set_up w in
    rw verdicts (one_false n l1 l2 l3 l4 l5)

module _ (stub : Stub) (is_stub : IsStub stub) (d : Declared) (f : Fixture)
    (fixture : IsFixture f) where
  -- Of the registered tests whose function exists, three pass and five fail, whatever the globals
  -- held before, whatever the sockets do, which no test sets up, and whatever the functions are that
  -- the header declares only: those of NOOP, of the ground commands and of the length check pass. The
  -- stubs give what the tests set up, the codes that they give are none of a success or of a missing
  -- resource where the tests rely on it, and fuel for two tests of the run loop is enough.
  pub outcomes-ut_test_setup :
      (fuel : ℕ)
      → outcomes (ut_test_setup stub d (suc (suc fuel)) f)
        ≡ ("SNTP_Main", false)
          ∷ ("SNTP_Init", false)
          ∷ ("SNTP_ProcessCommandPacket", false)
          ∷ ("SNTP_ProcessGroundCommand", true)
          ∷ ("SNTP_ReportHousekeeping", false)
          ∷ ("SNTP_NoopCmd", true)
          ∷ ("SNTP_ResetCounters", false)
          ∷ (
            "SNTP_ProcessCC",
            all_true (test_process_cc d f.platform f.no_table f.unregistered (f.world 7)),
          )
          ∷ ("SNTP_VerifyCmdLength", true)
          ∷ ("SNTP_TblValidationFunc", all_true (test_tbl_validation_func d f.platform (f.world 9)))
          ∷ ("SNTP_GetCrc", all_true (test_get_crc d f.no_table f.platform (f.world 10)))
          ∷ []
  unfolding ut_test_setup
  outcomes-ut_test_setup fuel =
      let p = f.platform in
      let w = f.world in
      rw (Main.test_main_verdicts stub is_stub f.main fixture.main_set_up fuel (w 0)) (
        rw (test_init_fails f.init fixture.init_set_up (w 1)) (
          rw
            (test_process_command_packet_fails stub is_stub p f.noop_msg f.hk_msg f.unknown_msg
              (w 2))
            (rw
              (test_process_ground_command_passes stub is_stub p f.noop_msg f.reset_msg
                f.process_msg f.invalid_msg (w 3) fixture.noop_code fixture.noop_size
                fixture.reset_code fixture.reset_size fixture.invalid_code)
              (rw
                (test_report_housekeeping_fails stub is_stub p f.hk_msg f.msg_send f.msg_timestamp
                  (w 4) fixture.hk_id)
                (rw (test_noop_cmd_passes stub is_stub p (w 5)) (
                  rw (test_reset_counters_fails stub is_stub p (w 6)) (
                    rw
                      (test_verify_cmd_length_passes stub is_stub p f.one_byte (w 8)
                        fixture.one_size)
                      refl)))))))
