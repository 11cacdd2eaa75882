-- ===== src/Status/Laws.antt =====
-- The table of `sntp_util_status_to_str` (fsw/src/sntp_utils.c).
use Prim.Native.String.{String}
use text.Mathlib.Text.{◌==◌ as str_eq}
use cfe_sntp.Base.{
  ℕ, ◌+◌, ◌≤◌, ◌<◌, ◌≡◌, ◌≢◌, leb, Bool-cases, refl, ap, Bool, true, false, List, [], ◌∷◌, Option,
  none, some, ℤ, pos, negsuc, is_negative, ◌==◌, if◌then◌else◌, all_below, all_below_sound, arith,
  ◌⊎◌, inl, inr,
}
use cfe_sntp.Status.{status_to_str, sntp_status_strs}

-- The code that a name stands for: its place in the list, counted from `n`.
abbrev pub code_from : ℕ → String → List String → Option ℕ
code_from n name [] = none
code_from n name (s ∷ rest) = if str_eq s name then some n else code_from (n + 1) name rest

abbrev pub code_of : Option String → Option ℕ
code_of none = none
code_of (some name) = code_from 0 name sntp_status_strs

abbrev holds : Option ℕ → ℕ → Bool
holds none n = false
holds (some m) n = m == n

holds_sound : (o : Option ℕ) (n : ℕ) → holds o n ≡ true → o ≡ some n
holds_sound none n h = cc
holds_sound (some m) n h = ground arith

table : all_below 18 (λ n. holds (code_of (status_to_str (pos n))) n) ≡ true
unfolding all_below status_to_str
table = refl

-- Every code from 0 to 17 has a name of its own: the code is found again from the name.
pub code_of-status_to_str : (n : ℕ) → n < 18 → code_of (status_to_str (pos n)) ≡ some n
code_of-status_to_str n h =
    holds_sound _ n (all_below_sound 18 (λ m. holds (code_of (status_to_str (pos m))) m) n table h)

-- No status makes the function read past its table. A status from 0 to 17 has a name of its own,
-- from which it is found again, and any other, negative or not, is "Unknown SNTP status", which is no
-- name of a status.
pub status_to_str_bounds :
    (status : ℤ)
    → (status_to_str status ≢ none)
      × (((status_to_str status ≡ some "Unknown SNTP status")
            × (code_of (status_to_str status) ≡ none)
            × ((is_negative status ≡ true) ⊎ ((n : ℕ) × (status ≡ pos n) × (18 ≤ n))))
          ⊎ ((n : ℕ) × (status ≡ pos n) × (n < 18) × (code_of (status_to_str status) ≡ some n)))
unfolding status_to_str
status_to_str_bounds (negsuc n) = (λ e. cc, inl (refl, refl, inl refl))
status_to_str_bounds (pos n) = elim (Bool-cases (leb 18 n)) [
  | inl big ↦ rw big (λ e. cc, inl (refl, refl, inr (n, refl, ground arith)))
  | inr small ↦
      let own = code_of-status_to_str n (ground arith) in
      (λ e. absurd (ground (arith, ap code_of e, own)), inr (n, refl, ground arith, own))
]
