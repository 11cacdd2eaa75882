-- ===== src/App/Trace/Request.antt =====
-- The datagrams of `process_sntp_request` (fsw/src/sntp.c).
use cfe_sntp.Base.{ℕ, Bytes, ℤ, ◌∷◌, ◌≡◌, arith}
use cfe_sntp.Platform.{Platform, Timestamp}
use cfe_sntp.World.{World}
use cfe_sntp.Clock.{get_current_sntp_time}
use cfe_sntp.Request.{send_response}
use cfe_sntp.Request.Laws.{second_reading}
use cfe_sntp.App.Trace.{Silent, Silent-trans, sends, tests}

module _ {ℓ} {S : Type ℓ} (p : Platform) where
  pub get_current_sntp_time-Silent :
      (old : Timestamp) (w : World S) → Silent w (get_current_sntp_time p old w).1
  unfolding get_current_sntp_time
  get_current_sntp_time-Silent old w = ground arith

  pub second_reading-Silent : (w : World S) → Silent w (second_reading p w).1
  second_reading-Silent w =
      Silent-trans (get_current_sntp_time-Silent _ w) (get_current_sntp_time-Silent _ _)

  -- One datagram, whatever `sendto` answers.
  pub send_response-sends :
      (fd : ℤ) (bytes addr : Bytes) (len : ℕ) (w : World S)
      → let w' = (send_response p fd bytes addr len w).1 in
        (sends w'.calls
          ≡ record { sockfd = fd; bytes = bytes; addr = addr; len = len } ∷ sends w.calls)
        × (tests w'.calls ≡ tests w.calls)
        × (w'.net_buf ≡ w.net_buf)
  unfolding send_response
  send_response-sends fd bytes addr len w = ground arith
