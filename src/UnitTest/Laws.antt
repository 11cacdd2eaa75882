-- ===== src/UnitTest/Laws.antt =====
-- The hook of unit-test/coveragetest/coveragetest_sample_app.c over a history of calls.
use Prim.Native.String.{String}
use text.Mathlib.Text.{◌==◌ as str_eq}
use cfe_sntp.Base.{
  ℕ, suc, ◌+◌, ◌%◌, ◌^◌, ◌<◌, ◌≡◌, Bool, true, ◌&&◌, List, [], ◌∷◌, Option, none, some, ◌==◌,
  if◌then◌else◌, arith,
}
use cfe_sntp.Platform.{Call}
use cfe_sntp.UnitTest.{CheckEvent, Stub, IsStub, one_more_match, check_event_hook, run_hook}

abbrev pub agrees : Option String → String → Bool
agrees none format = true
agrees (some expected) format = str_eq format expected

-- The events of a history that a check looks for.
abbrev pub matches : ℕ → Option String → List Call → ℕ
matches eid expected [] = 0
matches eid expected (Call.send_information e format arguments ∷ h) =
    if (e == eid) && agrees expected format
    then suc (matches eid expected h)
    else matches eid expected h
matches eid expected (Call.send_error e format arguments ∷ h) =
    if (e == eid) && agrees expected format
    then suc (matches eid expected h)
    else matches eid expected h
matches eid expected (_ ∷ h) = matches eid expected h

module _ (stub : Stub) (is_stub : IsStub stub) where
  -- What the hook does at one event.
  hook_at :
      (eid : ℕ) (format : String) (check : CheckEvent)
      → (check_event_hook (stub.context eid format) check).1 ≡ (
          if (eid == check.expected_event) && agrees check.expected_format format
          then one_more_match check
          else check)
  unfolding check_event_hook
  hook_at eid format check = ground (
    arith,
    is_stub.has_arguments eid format,
    is_stub.passes_id eid format,
    is_stub.passes_format eid format,
  )

  -- The hook's count, from a given one on, is the number of the events that it looks for, modulo
  -- the size of the counter, and its other members stay.
  pub run_hook-matches :
      (check : CheckEvent) (h : List Call)
      → check.match_count < 2 ^ 32
      → run_hook stub check h ≡ record check {
        match_count =
            (check.match_count + matches check.expected_event check.expected_format h) % 2 ^ 32;
      }
  unfolding run_hook
  run_hook-matches check [] small = ground arith
  run_hook-matches check (Call.send_information eid format arguments ∷ h) small =
      ground (arith, run_hook-matches check h small, hook_at eid format (run_hook stub check h))
  run_hook-matches check (Call.send_error eid format arguments ∷ h) small =
      ground (arith, run_hook-matches check h small, hook_at eid format (run_hook stub check h))
  run_hook-matches check (c ∷ h) small = run_hook-matches check h small
