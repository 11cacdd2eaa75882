-- ===== src/World.antt =====
-- Programs as functions of a state, the receive buffer and the history of calls. `netBuf` is a
-- global of the app and of both tools, so it stands beside the state `S` that each has of its own.
use cfe_sntp.Base.{ℤ, List, ◌∷◌, Bytes}
use cfe_sntp.Platform.{Platform, Call}

pub record World {ℓ} (S : Type ℓ) : Type ℓ where
  pub state : S
  pub net_buf : Bytes
  pub calls : List Call

abbrev pub M {ℓ κ} : Type ℓ → Type κ → Type (ℓ ⊔ κ)
M S A = World S → A × World S

module _ {ℓ κ} {S : Type ℓ} {A : Type κ} where
  abbrev pub pure : A → M S A
  pure a w = (a, w)

  infixl 5 ◌>>=◌ ◌>>◌
  abbrev pub ◌>>=◌ {μ} : {B : Type μ} → M S A → (A → M S B) → M S B
  ◌>>=◌ m f w = let r = m w in f r.0 r.1

  abbrev pub ◌>>◌ {μ} : {B : Type μ} → M S A → M S B → M S B
  m >> k = m >>= λ _. k

module _ {ℓ} {S : Type ℓ} where
  abbrev pub get : M S S
  get w = (w.state, w)

  abbrev pub put : S → M S (Unit {0})
  put s w = (tt, record w { state = s })

  abbrev pub get_net_buf : M S Bytes
  get_net_buf w = (w.net_buf, w)

  abbrev pub put_net_buf : Bytes → M S (Unit {0})
  put_net_buf b w = (tt, record w { net_buf = b })

  -- A call joins the history, and the platform answers the history.
  abbrev pub issue {κ} : {R : Type κ} → (List Call → R) → Call → M S R
  issue answer c w = let h = c ∷ w.calls in (answer h, record w { calls = h })

  abbrev pub call : Platform → Call → M S ℤ
  call p = issue p.answers.ret

  -- What the platform has left in a variable at this point of the run.
  abbrev pub observe {κ} : {R : Type κ} → (List Call → R) → M S R
  observe value w = (value w.calls, w)
