-- ===== src/App/Trace.antt =====
-- Two more views of a history: the datagrams sent, and the tests of the loop.
pub mod Request
pub mod Command
use cfe_sntp.Base.{ℕ, suc, ◌≡◌, List, [], ◌∷◌, ℤ, Bytes, ◌∙◌}
use cfe_sntp.Platform.{Call}
use cfe_sntp.World.{World}

-- A datagram: the socket, the bytes, the address and its length.
pub record Datagram : Type 0 where
  pub sockfd : ℤ
  pub bytes : Bytes
  pub addr : Bytes
  pub len : ℕ

abbrev pub sends : List Call → List Datagram
sends [] = []
sends (Call.sendto fd bytes addr len ∷ h) =
    record { sockfd = fd; bytes = bytes; addr = addr; len = len } ∷ sends h
sends (_ ∷ h) = sends h

-- The calls of `CFE_ES_RunLoop` so far.
abbrev pub tests : List Call → ℕ
tests [] = 0
tests (Call.run_loop status ∷ h) = suc (tests h)
tests (_ ∷ h) = tests h

module _ {ℓ} {S : Type ℓ} where
  -- From `w` to `w'` nothing was sent, the loop was not tested, and the buffer is the same.
  pub record Silent (w w' : World S) : Type 0 where
    pub same_sends : sends w'.calls ≡ sends w.calls
    pub same_tests : tests w'.calls ≡ tests w.calls
    pub same_buffer : w'.net_buf ≡ w.net_buf

  pub Silent-trans : {u v w : World S} → Silent u v → Silent v w → Silent u w
  Silent-trans a b = record {
    same_sends = b.same_sends ∙ a.same_sends;
    same_tests = b.same_tests ∙ a.same_tests;
    same_buffer = b.same_buffer ∙ a.same_buffer;
  }
