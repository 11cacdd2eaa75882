-- ===== src/UnitTest/Init.antt =====
-- `Test_SNTP_Init` of unit-test/coveragetest/coveragetest_sample_app.c, and the code that
-- `SNTP_Init` returns.
use cfe_sntp.Base.{
  ℕ, ◌≡◌, ◌≢◌, ◌⊎◌, Bool, true, false, List, [], ◌∷◌, Bytes, ℤ, ◌==◌, ◌==ℤ◌, ==ℤ_refl, ==ℤ_iff,
  if◌then◌else◌, arith,
}
use cfe_sntp.Platform.{Platform, Call}
use cfe_sntp.World.{World}
use cfe_sntp.App.{SntpData, cmd_mid, send_hk_mid}
use cfe_sntp.App.Init.{init, prepare, subscribe, open_socket}
use cfe_sntp.UnitTest.Cases.{sys_logs, InitCases, test_init}

-- A platform whose steps of the initialisation before the socket return these codes.
pub record Returns (p : Platform) (events pipe first second : ℤ) : Type 0 where
  pub returns_events : (h : List Call) → p.answers.ret (Call.evs_register ∷ h) ≡ events
  pub returns_pipe :
      (depth : ℕ) (name : Bytes) (h : List Call)
      → p.answers.ret (Call.create_pipe depth name ∷ h) ≡ pipe
  pub returns_first :
      (to : ℕ) (h : List Call)
      → p.answers.ret (Call.subscribe (p.cfe.value_to_msg_id (send_hk_mid p)) to ∷ h) ≡ first
  pub returns_second :
      (to : ℕ) (h : List Call)
      → p.answers.ret (Call.subscribe (p.cfe.value_to_msg_id (cmd_mid p)) to ∷ h) ≡ second

abbrev pub first_failure : ℤ → List ℤ → ℤ
first_failure ok [] = ok
first_failure ok (code ∷ codes) = if code ==ℤ ok then first_failure ok codes else code

module _ (p : Platform) {events pipe first second : ℤ}
    (steps : Returns p events pipe first second) where
  -- `SNTP_Init` returns the code of the first step that does not succeed. If there is none, it returns
  -- a success or the code of a missing resource, whatever the sockets do.
  pub init-first_failure :
      (w : World SntpData)
      → let code = first_failure p.cfe.success (events ∷ pipe ∷ first ∷ second ∷ []) in
        ((init p w).0 ≡ code)
        ⊎ ((code ≡ p.cfe.success) × ((init p w).0 ≡ p.cfe.external_resource_fail))
  unfolding init prepare subscribe open_socket
  init-first_failure w = grind (
    arith, steps.returns_events, steps.returns_pipe, steps.returns_first, steps.returns_second,
    ==ℤ_refl, ==ℤ_iff,
  )

abbrev ok : Platform → ℤ
ok p = p.cfe.success

-- The platforms of `Test_SNTP_Init`: in each but the first and the last one step fails, with a code
-- that is not that of a success. The last one fails in a call of the tables, which is no step, with a
-- code that is neither that of a success nor that of a missing resource. The sockets are the host's:
-- the test sets nothing up for them.
pub record IsSetUp (c : InitCases) : Type 0 where
  pub nominal : Returns c.nominal (ok c.nominal) (ok c.nominal) (ok c.nominal) (ok c.nominal)
  pub no_events :
      Returns c.no_events c.invalid_parameter (ok c.no_events) (ok c.no_events) (ok c.no_events)
  pub no_pipe : Returns c.no_pipe (ok c.no_pipe) c.bad_argument (ok c.no_pipe) (ok c.no_pipe)
  pub no_first : Returns c.no_first (ok c.no_first) (ok c.no_first) c.bad_argument (ok c.no_first)
  pub no_second :
      Returns c.no_second (ok c.no_second) (ok c.no_second) (ok c.no_second) c.bad_argument
  pub no_table : Returns c.no_table (ok c.no_table) (ok c.no_table) (ok c.no_table) (ok c.no_table)
  pub fails_events : c.invalid_parameter ≢ ok c.no_events
  pub fails_pipe : c.bad_argument ≢ ok c.no_pipe
  pub fails_first : c.bad_argument ≢ ok c.no_first
  pub fails_second : c.bad_argument ≢ ok c.no_second
  pub fails_table : c.invalid_options ≢ ok c.no_table
  pub other_failure : c.invalid_options ≢ c.no_table.cfe.external_resource_fail

module _ (c : InitCases) (set_up : IsSetUp c) where
  -- On the platforms that it sets up, whatever the sockets do, the assertions of `Test_SNTP_Init` on
  -- the codes of the four steps that fail hold, and that on a failure to register a table does not: it
  -- is no step of the initialisation. The five verdicts on the entries in the log, and that on the
  -- first run, depend on the sockets, on which the entries accumulate.
  pub test_init_verdicts :
      (w : World SntpData)
      → (nominal logs1 logs2 logs3 logs4 logs5 : Bool) × (test_init c w
          ≡ nominal ∷ true ∷ logs1 ∷ true ∷ logs2 ∷ true ∷ logs3 ∷ true ∷ logs4 ∷ false ∷ logs5
            ∷ [])
  unfolding test_init
  test_init_verdicts w =
      let w1 = (init c.nominal (record w { calls = [] })).1 in
      let w2 = (init c.no_events w1).1 in
      let w3 = (init c.no_pipe w2).1 in
      let w4 = (init c.no_first w3).1 in
      let w5 = (init c.no_second w4).1 in
      let w6 = (init c.no_table w5).1 in
      (
        (init c.nominal (record w { calls = [] })).0 ==ℤ ok c.nominal,
        sys_logs w2.calls == 1,
        sys_logs w3.calls == 2,
        sys_logs w4.calls == 3,
        sys_logs w5.calls == 4,
        sys_logs w6.calls == 5,
        ground (
          arith,
          init-first_failure c.no_events set_up.no_events w1,
          init-first_failure c.no_pipe set_up.no_pipe w2,
          init-first_failure c.no_first set_up.no_first w3,
          init-first_failure c.no_second set_up.no_second w4,
          init-first_failure c.no_table set_up.no_table w5,
          set_up.fails_events,
          set_up.fails_pipe,
          set_up.fails_first,
          set_up.fails_second,
          set_up.fails_table,
          set_up.other_failure,
          ==ℤ_refl c.invalid_parameter,
          ==ℤ_refl c.bad_argument,
          ==ℤ_refl (ok c.no_events),
          ==ℤ_refl (ok c.no_pipe),
          ==ℤ_refl (ok c.no_first),
          ==ℤ_refl (ok c.no_second),
          ==ℤ_refl (ok c.no_table),
          ==ℤ_iff c.invalid_parameter (ok c.no_events),
          ==ℤ_iff c.bad_argument (ok c.no_pipe),
          ==ℤ_iff c.bad_argument (ok c.no_first),
          ==ℤ_iff c.bad_argument (ok c.no_second),
          ==ℤ_iff (init c.no_table w5).0 c.invalid_options,
        ),
      )
