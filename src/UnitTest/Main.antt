-- ===== src/UnitTest/Main.antt =====
-- `Test_SNTP_Main` of unit-test/coveragetest/coveragetest_sample_app.c.
use Prim.Native.String.{String}
use cfe_sntp.Base.{
  ℕ, suc, ◌≡◌, ◌≢◌, refl, true, false, List, [], ◌∷◌, Option, some, ◌==◌, ==ℤ_iff, arith,
}
use cfe_sntp.Platform.{Platform, Call}
use cfe_sntp.World.{World}
use cfe_sntp.App.{SntpData, perf_id, pipe_err_eid}
use cfe_sntp.App.Init.{init, prepare}
use cfe_sntp.App.Main.{Client, round, run_loop, main_loop, start, finish, sntp_main}
use cfe_sntp.App.Main.Exit.{tests-round}
use cfe_sntp.App.Events.{AllKnown}
use cfe_sntp.App.Events.Laws.{sntp_main-IsKnown}
use cfe_sntp.App.Rounds.{polls, exits}
use cfe_sntp.App.Rounds.Laws.{start-Within, round_counts}
use cfe_sntp.App.Trace.{tests}
use cfe_sntp.UnitTest.{Stub, IsStub, check_event_setup, watch}
use cfe_sntp.UnitTest.Cases.{set_check, MainCases, test_main}
use cfe_sntp.UnitTest.Laws.{matches, run_hook-matches}

-- What `Test_SNTP_Main` sets up in the stubs: the run loop grants one round, in the third run, and
-- leaves the status alone; in the second run the events cannot be registered.
pub record IsSetUp (c : MainCases) : Type 0 where
  pub refuses_first :
      (status : ℕ) (h : List Call)
      → c.nominal.answers.keeps_running (Call.run_loop status ∷ h) ≡ false
  pub refuses_second :
      (status : ℕ) (h : List Call)
      → c.no_events.answers.keeps_running (Call.run_loop status ∷ h) ≡ false
  pub leaves_status :
      (status : ℕ) (h : List Call)
      → c.no_events.answers.run_status (Call.run_loop status ∷ h) ≡ status
  pub fails_events :
      (h : List Call) → c.no_events.answers.ret (Call.evs_register ∷ h) ≢ c.no_events.cfe.success
  pub grants_one :
      (status : ℕ) (h : List Call)
      → c.looping.answers.keeps_running (Call.run_loop status ∷ h) ≡ (tests h == 2)

no_pipe_event :
    (expected : Option String) (h : List Call) → AllKnown h → matches pipe_err_eid expected h ≡ 0
no_pipe_event expected [] known = refl
no_pipe_event expected (c ∷ h) known = ground (arith, no_pipe_event expected h)

module _ (p : Platform) (fuel : ℕ) (w : World SntpData) where
  -- A run that is refused at its first test.
  refused_run :
      p.answers.keeps_running (Call.run_loop (start p w).1.state.run_status ∷ (start p w).1.calls)
        ≡ false
      → let r = (sntp_main p (suc fuel) w).1 in
        (exits r.calls ≡ suc (exits w.calls))
        × (tests r.calls ≡ suc (tests w.calls))
        × (polls r.calls ≡ polls w.calls)
        × (r.state.run_status
            ≡ p.answers.run_status
                (Call.run_loop (start p w).1.state.run_status ∷ (start p w).1.calls))
  unfolding sntp_main main_loop run_loop finish
  refused_run refused =
      let begun = start-Within p w in
      ground (arith, begun.same_exits, begun.same_tests, begun.same_polls)

  failed_start :
      p.answers.ret (Call.evs_register ∷ Call.perf_log_entry perf_id ∷ w.calls) ≢ p.cfe.success
      → (start p w).1.state.run_status ≡ p.cfe.app_error
  unfolding start init prepare
  failed_start failed = ground (
    arith,
    ==ℤ_iff (p.answers.ret (Call.evs_register ∷ Call.perf_log_entry perf_id ∷ w.calls))
        p.cfe.success,
  )

  -- A run of which one round is granted.
  one_round :
      ((status : ℕ) (h : List Call)
        → p.answers.keeps_running (Call.run_loop status ∷ h) ≡ (tests h == 2))
      → tests w.calls ≡ 2
      → polls (sntp_main p (suc (suc fuel)) w).1.calls ≡ suc (polls w.calls)
  unfolding sntp_main main_loop run_loop finish
  one_round grants before =
      let begun = start-Within p w in
      let v = (start p w).1 in
      let first : Client = record { addr = p.answers.unset_addr v.calls; len = p.sockaddr_size } in
      let tested = (run_loop p v).1 in
      let next = (round p first tested).1 in
      ground (
        arith,
        begun.same_tests,
        begun.same_polls,
        grants v.state.run_status v.calls,
        round_counts p first tested,
        tests-round p first tested,
        grants next.state.run_status next.calls,
      )

module _ (stub : Stub) (is_stub : IsStub stub) (c : MainCases) (set_up : IsSetUp c) where
  -- `Test_SNTP_Main` fails in its last assertion alone: the app exits, a failed initialisation sets
  -- the error status, a granted round polls the command pipe, and no event is sent for a failed
  -- poll. Fuel for two tests in each run is enough.
  pub test_main_verdicts :
      (fuel : ℕ) (w : World SntpData)
      → test_main stub c (suc (suc fuel)) w ≡ true ∷ true ∷ true ∷ false ∷ []
  unfolding test_main watch check_event_setup
  test_main_verdicts fuel w =
      let w0 : World SntpData = record w { calls = [] } in
      let w1 = (sntp_main c.nominal (suc (suc fuel)) w0).1 in
      let w2 = (sntp_main c.no_events (suc (suc fuel)) w1).1 in
      let w3 = (sntp_main c.looping (suc (suc fuel)) w2).1 in
      let w4 = (sntp_main c.no_message (suc (suc fuel)) (record w3 { calls = [] })).1 in
      let v1 = (start c.nominal w0).1 in
      let v2 = (start c.no_events w1).1 in
      let format = some "SAMPLE APP: SB Pipe Read Error, App Will Exit" in
      let check = set_check pipe_err_eid "SNTP_PIPE_ERR_EID" format in
      let known = sntp_main-IsKnown c.no_message (suc (suc fuel)) (record w3 { calls = [] }) refl in
      ground (
        arith,
        refused_run c.nominal (suc fuel) w0 (set_up.refuses_first v1.state.run_status v1.calls),
        refused_run c.no_events (suc fuel) w1 (set_up.refuses_second v2.state.run_status v2.calls),
        set_up.leaves_status v2.state.run_status v2.calls,
        failed_start c.no_events (suc fuel) w1 (set_up.fails_events _),
        one_round c.looping fuel w2 set_up.grants_one,
        no_pipe_event format w4.calls known,
        run_hook-matches stub is_stub check w4.calls,
      )
