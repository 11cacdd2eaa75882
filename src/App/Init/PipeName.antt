-- ===== src/App/Init/PipeName.antt =====
-- The two statements of `SNTP_Init` (fsw/src/sntp.c) that set the pipe's name, as C reads it.
use cfe_sntp.Base.{
  ℕ, zero, suc, ◌-◌, ◌<◌, ◌≤◌, ◌∙◌, ◌≡◌, refl, [], ◌∷◌, ◌++◌, Bytes, codes, take, replicate, write,
  length, length-write, length-take_le, length-append, length-replicate, ◌==◌, if◌then◌else◌, arith,
}
use cfe_sntp.App.Init.{pipe_name, strncpy}

-- The text that C reads at an address: the bytes up to the first zero.
abbrev pub c_string : Bytes → Bytes
c_string [] = []
c_string (b ∷ bs) = if b == 0 then [] else b ∷ c_string bs

abbrev NoZero : Bytes → Type 0
NoZero [] = Unit
NoZero (b ∷ bs) = (0 < b) × NoZero bs

-- `strncpy` with room for `n` bytes and a zero, and the zero written at its end.
c_string-strncpy :
    (n m : ℕ) (src : Bytes)
    → n < m
    → NoZero src
    → c_string (write n (0 ∷ []) (take (suc n) (src ++ replicate m 0))) ≡ take n src
c_string-strncpy zero zero src h k = absurd (omega arith)
c_string-strncpy zero (suc m) [] h k = refl
c_string-strncpy zero (suc m) (x ∷ src) h k = refl
c_string-strncpy (suc n) zero src h k = absurd (omega arith)
c_string-strncpy (suc n) (suc m) [] h k = refl
c_string-strncpy (suc n) (suc m) (x ∷ src) h k =
    ground (arith, c_string-strncpy n (suc m) src (omega arith) k.1)

-- With any size that is not 0 the name fills its array, and reads as "SNTP_CMD_PIPE", cut to leave
-- room for the zero at its end.
pub pipe_name-c_string :
    (size : ℕ)
    → 0 < size
    → (c_string (pipe_name size) ≡ take (size - 1) (codes "SNTP_CMD_PIPE"))
      × (length (pipe_name size) ≡ size)
unfolding pipe_name
pipe_name-c_string zero h = absurd (omega arith)
pipe_name-c_string (suc n) h =
    let e : suc n - 1 ≡ n = omega arith in
    let src = codes "SNTP_CMD_PIPE" in
    let long : suc n ≤ length (src ++ replicate (suc n) 0) = omega (
      arith,
      length-append {0} src (replicate (suc n) 0),
      length-replicate {0} {A = ℕ} (suc n) 0,
    ) in
    rw e (
      c_string-strncpy n (suc n) src (omega arith) (omega arith),
      length-write n (0 ∷ []) (strncpy (suc n) src)
          ∙ length-take_le (suc n) (src ++ replicate (suc n) 0) long,
    )
