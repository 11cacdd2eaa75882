-- ===== src/UnitTest.antt =====
-- unit-test/coveragetest/coveragetest_sample_app.c: the hook that looks for an event, and what it
-- sees of the calls of the code under test. The framework of the tests is a parameter.
pub mod Cases
pub mod Laws
pub mod Init
pub mod Main
pub mod Verdicts
pub mod Declared
pub mod Suite
use Prim.Native.String.{String}
use text.Mathlib.Text.{◌==◌ as str_eq}
use cfe_sntp.Base.{
  ℕ, ◌+◌, ◌%◌, ◌^◌, ◌<◌, ◌≡◌, Bool, List, [], ◌∷◌, Option, none, some, ℤ, pos, ◌==◌, ltb,
  if◌then◌else◌,
}
use cfe_sntp.Platform.{Call, Arg}
use cfe_sntp.World.{World, M}

-- `UT_CheckEvent_t`. `none` is the null pointer.
pub record CheckEvent : Type 0 where
  pub expected_event : ℕ
  pub match_count : ℕ
  pub expected_format : Option String

-- What a hook reads of its `UT_StubContext_t`: the arguments of the call that have a name.
pub record StubContext : Type 0 where
  pub arg_count : ℕ
  pub event_id : ℕ
  pub spec : Option String

-- The stub of CFE_EVS_SendEvent: the context that it makes of an event.
pub record Stub : Type 0 where
  pub context : ℕ → String → StubContext

-- It passes the id as its first argument, and the format.
pub record IsStub (stub : Stub) : Type 0 where
  pub has_arguments : (eid : ℕ) (format : String) → 0 < (stub.context eid format).arg_count
  pub passes_id : (eid : ℕ) (format : String) → (stub.context eid format).event_id ≡ eid
  pub passes_format : (eid : ℕ) (format : String) → (stub.context eid format).spec ≡ some format

abbrev pub one_more_match : CheckEvent → CheckEvent
one_more_match check = record check { match_count = (check.match_count + 1) % 2 ^ 32 }

-- The test of the format, where one is expected.
abbrev pub check_format : Option String → Option String → CheckEvent → CheckEvent
check_format none spec check = one_more_match check
check_format (some expected) none check = check
check_format (some expected) (some spec) check =
    if str_eq spec expected then one_more_match check else check

-- `UT_CheckEvent_Hook`
unfoldable pub check_event_hook : StubContext → CheckEvent → ℤ × CheckEvent
check_event_hook context check =
    if ltb 0 context.arg_count
    then (
      pos 0,
      (if context.event_id == check.expected_event
          then check_format check.expected_format context.spec check
          else check),
    )
    else (pos 0, check)

-- `UT_CheckEvent_Setup_Impl`: the line that is printed, and the check that is attached.
unfoldable pub check_event_setup : ℕ → String → Option String → (String × List Arg) × CheckEvent
check_event_setup expected name none = (
  ("CheckEvent will match: %s(%u)", Arg.text name ∷ Arg.nat expected ∷ []),
  record { expected_event = expected; match_count = 0; expected_format = none },
)
check_event_setup expected name (some format) = (
  (
    "CheckEvent will match: %s(%u), \"%s\"",
    Arg.text name ∷ Arg.nat expected ∷ Arg.text format ∷ [],
  ),
  record { expected_event = expected; match_count = 0; expected_format = some format },
)

module _ (stub : Stub) where
  -- The stub calls the hook at each event, the oldest first.
  unfoldable pub run_hook : CheckEvent → List Call → CheckEvent
  run_hook check [] = check
  run_hook check (Call.send_information eid format arguments ∷ h) =
      (check_event_hook (stub.context eid format) (run_hook check h)).1
  run_hook check (Call.send_error eid format arguments ∷ h) =
      (check_event_hook (stub.context eid format) (run_hook check h)).1
  run_hook check (_ ∷ h) = run_hook check h

  -- A call of the code under test, and the check after it.
  unfoldable pub watch {ℓ κ} :
      {S : Type ℓ} {A : Type κ} → M S A → CheckEvent → World S → A × CheckEvent × World S
  watch code check w =
      let r = code (record w { calls = [] }) in (r.0, run_hook check r.1.calls, r.1)
