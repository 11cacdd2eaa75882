-- ===== src/App/Init/Cases.antt =====
-- The checks of a status in `SNTP_Init` (fsw/src/sntp.c).
use Prim.Native.String.{String}
use cfe_sntp.Base.{◌≡◌, ◌≢◌, [], ◌∷◌, ℤ, ◌==ℤ◌, ==ℤ_iff, to_u64, arith, Bool-cases, inl, inr}
use cfe_sntp.Platform.{Platform, Arg, Call}
use cfe_sntp.World.{World, M, call}
use cfe_sntp.App.{SntpData}
use cfe_sntp.App.Init.{fail_or}

module _ (p : Platform) where
  -- The entry in the system log for the status of a call.
  abbrev pub entry : String → ℤ → Call
  entry text status = Call.write_to_sys_log text (Arg.nat (to_u64 status) ∷ [])

  -- A step with a status of success is followed by the rest, and any other by its entry in the log.
  pub fail_or_cases :
      (P : ℤ → World SntpData → Type 0) (text : String) (status : ℤ) (rest : M SntpData ℤ)
      (w : World SntpData)
      → (status ≡ p.cfe.success → P (rest w).0 (rest w).1)
      → (status ≢ p.cfe.success → P status (call p (entry text status) w).1)
      → P (fail_or p text status rest w).0 (fail_or p text status rest w).1
  fail_or_cases P text status rest w goes_on fails =
      let decided = ==ℤ_iff status p.cfe.success in
      elim (Bool-cases (status ==ℤ p.cfe.success)) [
        | inl good ↦ rw good (goes_on (ground (arith, decided)))
        | inr bad ↦ rw bad (fails (ground (arith, decided)))
      ]
