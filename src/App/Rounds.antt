-- ===== src/App/Rounds.antt =====
-- The rounds of the loop, counted in the history: polls of the command pipe, reads of the socket.
pub mod Laws
use cfe_sntp.Base.{ℕ, suc, ◌≡◌, List, [], ◌∷◌}
use cfe_sntp.Platform.{Call}
use cfe_sntp.World.{World}
use cfe_sntp.App.Trace.{tests}

abbrev pub polls : List Call → ℕ
polls [] = 0
polls (Call.poll_buffer pipe ∷ h) = suc (polls h)
polls (_ ∷ h) = polls h

abbrev pub reads : List Call → ℕ
reads [] = 0
reads (Call.recvfrom fd size ∷ h) = suc (reads h)
reads (_ ∷ h) = reads h

-- The calls that end the app.
abbrev pub exits : List Call → ℕ
exits [] = 0
exits (Call.exit_app status ∷ h) = suc (exits h)
exits (_ ∷ h) = exits h

-- What a part of the app that begins or tests no round and does not exit leaves alone.
pub record Within {ℓ} {S : Type ℓ} (u w : World S) : Type 0 where
  pub same_polls : polls w.calls ≡ polls u.calls
  pub same_reads : reads w.calls ≡ reads u.calls
  pub same_exits : exits w.calls ≡ exits u.calls
  pub same_tests : tests w.calls ≡ tests u.calls
