-- ===== src/Clock/Laws.antt =====
-- `getCurrentSntpTime` (fsw/src/sntp_utils.c): ranges, frames and precision.
use native.Mathlib.Nat.{mod-eq_of_lt, mul-div_cancel}
use cfe_sntp.Base.{ℕ, ◌+◌, ◌*◌, ◌/◌, ◌%◌, ◌^◌, ◌≤◌, ◌<◌, ◌≡◌, false, ◌∷◌, negsuc, arith}
use cfe_sntp.Platform.{Platform, Timestamp, Timespec, Call}
use cfe_sntp.Platform.Laws.{IsAnswers, IsTimestamp}
use cfe_sntp.World.{World}
use cfe_sntp.Clock.{
  get_current_sntp_time, fractions_to_ms, milliseconds_to_sntp_fractions, of_timespec, of_sys_time,
}

module _ {ℓ} {S : Type ℓ} (p : Platform) (answers : IsAnswers p) where
  -- A reading is a pair of words, if what it may leave unchanged is one.
  pub get_current_sntp_time-IsTimestamp :
      (old : Timestamp) (w : World S)
      → IsTimestamp old
      → IsTimestamp (get_current_sntp_time p old w).0
  unfolding get_current_sntp_time of_timespec of_sys_time
  get_current_sntp_time-IsTimestamp old w h =
      ground (arith, answers.subseconds_range (Call.get_utc ∷ w.calls))

module _ {ℓ} {S : Type ℓ} (p : Platform) where
  -- Reading the clock changes neither the state nor the receive buffer.
  pub get_current_sntp_time_frame :
      (old : Timestamp) (w : World S)
      → ((get_current_sntp_time p old w).1.state ≡ w.state)
        × ((get_current_sntp_time p old w).1.net_buf ≡ w.net_buf)
  unfolding get_current_sntp_time
  get_current_sntp_time_frame old w = ground arith

  -- A system clock that fails leaves the caller's variable as it was.
  pub get_current_sntp_time_failed :
      (old : Timestamp) (w : World S)
      → p.use_cfe_time ≡ false
      → p.answers.ret (Call.clock_gettime ∷ w.calls) ≡ negsuc 0
      → (get_current_sntp_time p old w).0 ≡ old
  unfolding get_current_sntp_time
  get_current_sntp_time_failed old w build failed = ground arith

module _ (p : Platform) where
  -- The bounds on SNTP_FRACTION_VALUE_PER_MICROSECOND that the conversions need: 999 ms fit a word.
  abbrev pub FractionsFit : Type 0
  FractionsFit =
      (0 < p.sntp.fraction_value_per_microsecond)
      × (999 * 1000 * p.sntp.fraction_value_per_microsecond < 2 ^ 32)

  ms_bound : (ms f : ℕ) → ms ≤ 999 → ms * 1000 * f ≤ 999 * 1000 * f
  ms_bound ms f h = grind arith

  ms_round_trip :
      (ms f : ℕ)
      → ms ≤ 999
      → 0 < f
      → 999 * 1000 * f < 2 ^ 32
      → ms * 1000 * f % 2 ^ 32 / (f * 1000 % 2 ^ 32) ≡ ms
  ms_round_trip ms f h pos_f fit =
      let bound = ms_bound ms f h in
      let e : ms * 1000 * f ≡ ms * (f * 1000) = omega arith in
      let small : f * 1000 < 2 ^ 32 = omega arith in
      let fits : ms * 1000 * f < 2 ^ 32 = omega arith in
      rw (mod-eq_of_lt small, mod-eq_of_lt fits, e) (mul-div_cancel ms (omega arith))

  -- `FRACTIONS_TO_MS` gives back the milliseconds of the system clock from the fractions that
  -- `getCurrentSntpTime` makes of them, if the nanoseconds are less than a second and the fractions
  -- of 999 milliseconds fit 32 bits.
  pub of_timespec_ms :
      (t : Timespec)
      → FractionsFit
      → t.tv_nsec < 1000000000
      → fractions_to_ms p (of_timespec p t).fractions ≡ t.tv_nsec / 1000000
  unfolding fractions_to_ms of_timespec milliseconds_to_sntp_fractions
  of_timespec_ms t fit range =
      ms_round_trip (t.tv_nsec / 1000000) p.sntp.fraction_value_per_microsecond (omega arith) fit.0
        fit.1

  -- With 4295 fractions to the microsecond, the fractions of a timestamp run at most 8 us ahead of
  -- the nanoseconds of the system clock, which are less than a second, and less than a millisecond
  -- behind them.
  pub of_timespec_precision :
      (t : Timespec)
      → p.sntp.fraction_value_per_microsecond ≡ 4295
      → t.tv_nsec < 1000000000
      → ((of_timespec p t).fractions * 1000000000 ≤ (t.tv_nsec + 8000) * 2 ^ 32)
        × (t.tv_nsec * 2 ^ 32 < (of_timespec p t).fractions * 1000000000 + 1000000 * 2 ^ 32)
  unfolding of_timespec milliseconds_to_sntp_fractions
  of_timespec_precision t e range = rw e (omega arith)
