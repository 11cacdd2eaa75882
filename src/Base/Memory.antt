-- ===== src/Base/Memory.antt =====
-- Byte strings, as objects of C in memory: bounded reads and writes, and the big-endian
-- image of a 32-bit word.
use Prim.Native.Nat.{ℕ, zero, suc, ◌+◌, ◌*◌, ◌/◌, ◌%◌, ◌^◌, ◌≤◌, ◌<◌}
use mathlib.Core.Path.{◌≡◌, refl, sym, ap}
use mathlib.Core.Logic.{◌⊎◌, inl, inr}
use mathlib.Core.List.{List, [], ◌∷◌, ◌++◌}
use Prim.Native.Char.{code}
use Prim.Native.String.{String}
use native.Mathlib.Omega.{arith}

abbrev pub Bytes : Type 0
Bytes = List ℕ

-- The bytes of an ASCII text.
abbrev pub codes : String → Bytes
codes String.[] = []
codes (String.◌∷◌ c s) = code c ∷ codes s

zero-add : (n : ℕ) → 0 + n ≡ n
zero-add n = omega arith

suc-add : (m n : ℕ) → suc m + n ≡ suc (m + n)
suc-add m n = omega arith

module _ {ℓ} {A : Type ℓ} where
  abbrev pub length : List A → ℕ
  length [] = 0
  length (x ∷ xs) = suc (length xs)

  abbrev pub take : ℕ → List A → List A
  take zero xs = []
  take (suc n) [] = []
  take (suc n) (x ∷ xs) = x ∷ take n xs

  abbrev pub drop : ℕ → List A → List A
  drop zero xs = xs
  drop (suc n) [] = []
  drop (suc n) (x ∷ xs) = drop n xs

  abbrev pub replicate : ℕ → A → List A
  replicate zero a = []
  replicate (suc n) a = a ∷ replicate n a

  -- The first bytes of an object are overwritten; nothing is written past its end.
  abbrev pub overwrite : List A → List A → List A
  overwrite [] xs = xs
  overwrite (w ∷ ws) [] = []
  overwrite (w ∷ ws) (x ∷ xs) = w ∷ overwrite ws xs

  -- `ws` is stored at the offset `off`.
  abbrev pub write : ℕ → List A → List A → List A
  write zero ws xs = overwrite ws xs
  write (suc off) ws [] = []
  write (suc off) ws (x ∷ xs) = x ∷ write off ws xs

  -- The `n` elements at the offset `off`.
  abbrev pub slice : ℕ → ℕ → List A → List A
  slice off n xs = take n (drop off xs)

  pub length-replicate : (n : ℕ) (a : A) → length (replicate n a) ≡ n
  length-replicate zero a = refl
  length-replicate (suc n) a = ap suc (length-replicate n a)

  length-overwrite : (ws xs : List A) → length (overwrite ws xs) ≡ length xs
  length-overwrite [] xs = refl
  length-overwrite (w ∷ ws) [] = refl
  length-overwrite (w ∷ ws) (x ∷ xs) = ap suc (length-overwrite ws xs)

  pub length-write : (off : ℕ) (ws xs : List A) → length (write off ws xs) ≡ length xs
  length-write zero ws xs = length-overwrite ws xs
  length-write (suc off) ws [] = refl
  length-write (suc off) ws (x ∷ xs) = ap suc (length-write off ws xs)

  -- An object that is overwritten in full holds the new bytes only.
  pub overwrite_full : (ws xs : List A) → length ws ≡ length xs → overwrite ws xs ≡ ws
  overwrite_full [] [] h = refl
  overwrite_full [] (x ∷ xs) h = absurd (omega arith)
  overwrite_full (w ∷ ws) [] h = absurd (omega arith)
  overwrite_full (w ∷ ws) (x ∷ xs) h = ap (λ l. w ∷ l) (overwrite_full ws xs (omega arith))

  take-overwrite :
      (ws xs : List A) → length ws ≤ length xs → take (length ws) (overwrite ws xs) ≡ ws
  take-overwrite [] xs h = refl
  take-overwrite (w ∷ ws) [] h = absurd (omega arith)
  take-overwrite (w ∷ ws) (x ∷ xs) h = ap (λ l. w ∷ l) (take-overwrite ws xs (omega arith))

  -- What was written in range is read back.
  pub slice-write_self :
      (off : ℕ) (ws xs : List A)
      → off + length ws ≤ length xs
      → slice off (length ws) (write off ws xs) ≡ ws
  slice-write_self zero ws xs h = take-overwrite ws xs (omega arith)
  slice-write_self (suc off) [] [] h = refl
  slice-write_self (suc off) (w ∷ ws) [] h = absurd (omega arith)
  slice-write_self (suc off) ws (x ∷ xs) h = slice-write_self off ws xs (omega arith)

  drop-overwrite : (n : ℕ) (ws xs : List A) → length ws ≤ n → drop n (overwrite ws xs) ≡ drop n xs
  drop-overwrite n [] xs h = refl
  drop-overwrite zero (w ∷ ws) xs h = absurd (omega arith)
  drop-overwrite (suc n) (w ∷ ws) [] h = refl
  drop-overwrite (suc n) (w ∷ ws) (x ∷ xs) h = drop-overwrite n ws xs (omega arith)

  take-write : (n off : ℕ) (ws xs : List A) → n ≤ off → take n (write off ws xs) ≡ take n xs
  take-write zero off ws xs h = refl
  take-write (suc n) zero ws xs h = absurd (omega arith)
  take-write (suc n) (suc off) ws [] h = refl
  take-write (suc n) (suc off) ws (x ∷ xs) h =
      ap (λ l. x ∷ l) (take-write n off ws xs (omega arith))

  -- A range that the write does not meet is left alone.
  pub slice-write_apart :
      (off n at : ℕ) (ws xs : List A)
      → (off + n ≤ at) ⊎ (at + length ws ≤ off)
      → slice off n (write at ws xs) ≡ slice off n xs
  slice-write_apart zero n at ws xs (inl h) = take-write n at ws xs (omega arith)
  slice-write_apart (suc off) n zero ws xs (inl h) = absurd (omega arith)
  slice-write_apart (suc off) n (suc at) ws [] (inl h) = refl
  slice-write_apart (suc off) n (suc at) ws (x ∷ xs) (inl h) =
      slice-write_apart off n at ws xs (inl (omega arith))
  slice-write_apart off n zero ws xs (inr h) = ap (take n) (drop-overwrite off ws xs (omega arith))
  slice-write_apart zero n (suc at) ws xs (inr h) = absurd (omega arith)
  slice-write_apart (suc off) n (suc at) ws [] (inr h) = refl
  slice-write_apart (suc off) n (suc at) ws (x ∷ xs) (inr h) =
      slice-write_apart off n at ws xs (inr (omega arith))

  pub length-append : (xs ys : List A) → length (xs ++ ys) ≡ length xs + length ys
  length-append [] ys = omega arith
  length-append (x ∷ xs) ys = omega (arith, length-append xs ys)

  pub length-take_le : (n : ℕ) (xs : List A) → n ≤ length xs → length (take n xs) ≡ n
  length-take_le zero xs h = refl
  length-take_le (suc n) [] h = absurd (omega arith)
  length-take_le (suc n) (x ∷ xs) h = ap suc (length-take_le n xs (omega arith))

  pub length-slice : (off n : ℕ) (xs : List A) → off + n ≤ length xs → length (slice off n xs) ≡ n
  length-slice zero n xs h = length-take_le n xs (omega arith)
  length-slice (suc off) n [] h = absurd (omega arith)
  length-slice (suc off) n (x ∷ xs) h = length-slice off n xs (omega arith)

  take-append-drop : (n : ℕ) (xs : List A) → xs ≡ take n xs ++ drop n xs
  take-append-drop zero xs = refl
  take-append-drop (suc n) [] = refl
  take-append-drop (suc n) (x ∷ xs) = ap (λ l. x ∷ l) (take-append-drop n xs)

  drop_nil : (n : ℕ) → drop n [] ≡ []
  drop_nil zero = refl
  drop_nil (suc n) = refl

  -- The rest of an object from an offset on begins with a slice.
  pub drop-slice : (off n : ℕ) (xs : List A) → drop off xs ≡ slice off n xs ++ drop (off + n) xs
  drop-slice zero n xs = rw (zero-add n) (take-append-drop n xs)
  drop-slice (suc off) zero [] = sym (drop_nil (suc off + 0))
  drop-slice (suc off) (suc n) [] = sym (drop_nil (suc off + suc n))
  drop-slice (suc off) n (x ∷ xs) = rw (suc-add off n) (drop-slice off n xs)

  pub drop_all : (n : ℕ) (xs : List A) → length xs ≡ n → drop n xs ≡ []
  drop_all zero [] e = refl
  drop_all (suc n) [] e = refl
  drop_all zero (x ∷ xs) e = absurd (omega arith)
  drop_all (suc n) (x ∷ xs) e = drop_all n xs (omega arith)

-- The four bytes of a 32-bit word in network byte order.
abbrev pub be32 : ℕ → Bytes
be32 x = x / 2 ^ 24 % 256 ∷ x / 2 ^ 16 % 256 ∷ x / 2 ^ 8 % 256 ∷ x % 256 ∷ []

-- The word that four bytes in network byte order stand for.
abbrev pub from_be32 : Bytes → ℕ
from_be32 (a ∷ b ∷ c ∷ d ∷ []) = a * 2 ^ 24 + b * 2 ^ 16 + c * 2 ^ 8 + d
from_be32 _ = 0

pub from_be32-be32 : (x : ℕ) → from_be32 (be32 x) ≡ x % 2 ^ 32
from_be32-be32 x = omega arith

abbrev pub AreBytes : Bytes → Type 0
AreBytes [] = Unit {0}
AreBytes (b ∷ bs) = (b < 256) × AreBytes bs

pub be32-from_be32 : (bs : Bytes) → length bs ≡ 4 → AreBytes bs → be32 (from_be32 bs) ≡ bs
be32-from_be32 (a ∷ b ∷ c ∷ d ∷ []) h k = ground arith
be32-from_be32 [] h k = absurd (omega arith)
be32-from_be32 (a ∷ []) h k = absurd (omega arith)
be32-from_be32 (a ∷ b ∷ []) h k = absurd (omega arith)
be32-from_be32 (a ∷ b ∷ c ∷ []) h k = absurd (omega arith)
be32-from_be32 (a ∷ b ∷ c ∷ d ∷ e ∷ r) h k = absurd (omega arith)

pub from_be32-lt : (bs : Bytes) → AreBytes bs → from_be32 bs < 2 ^ 32
from_be32-lt (a ∷ b ∷ c ∷ d ∷ []) k = omega arith
from_be32-lt [] k = omega arith
from_be32-lt (a ∷ []) k = omega arith
from_be32-lt (a ∷ b ∷ []) k = omega arith
from_be32-lt (a ∷ b ∷ c ∷ []) k = omega arith
from_be32-lt (a ∷ b ∷ c ∷ d ∷ e ∷ r) k = omega arith

take-AreBytes : (n : ℕ) (bs : Bytes) → AreBytes bs → AreBytes (take n bs)
take-AreBytes zero bs h = tt
take-AreBytes (suc n) [] h = tt
take-AreBytes (suc n) (b ∷ bs) h = (h.0, take-AreBytes n bs h.1)

pub slice-AreBytes : (off n : ℕ) (bs : Bytes) → AreBytes bs → AreBytes (slice off n bs)
slice-AreBytes zero n bs h = take-AreBytes n bs h
slice-AreBytes (suc off) zero [] h = tt
slice-AreBytes (suc off) (suc n) [] h = tt
slice-AreBytes (suc off) n (b ∷ bs) h = slice-AreBytes off n bs h.1
