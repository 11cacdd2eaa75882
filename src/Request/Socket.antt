-- ===== src/Request/Socket.antt =====
-- The socket through `process_sntp_request` (fsw/src/sntp.c), in the app and in the test server.
use cfe_sntp.Base.{ℕ, ◌≡◌, Bytes, ℤ, arith}
use cfe_sntp.Platform.{Platform, Timestamp}
use cfe_sntp.World.{World}
use cfe_sntp.Clock.{get_current_sntp_time}
use cfe_sntp.Clock.Laws.{get_current_sntp_time_frame}
use cfe_sntp.Request.{answer_request, send_response}
use cfe_sntp.Request.Laws.{first_reading, answer_request_sends}
use cfe_sntp.Socket.Life.{SocketState, IsOn}

module _ {ℓ} {S : Type ℓ} (p : Platform) (good : ℤ → SocketState) (fd : ℤ) where
  get_current_sntp_time-IsOn :
      (old : Timestamp) (w : World S)
      → IsOn p good fd w.calls
      → IsOn p good fd (get_current_sntp_time p old w).1.calls
  unfolding get_current_sntp_time
  get_current_sntp_time-IsOn old w open_now = ground arith

  pub answer_request-IsOn :
      (level : ℕ) (addr : Bytes) (len : ℕ) (w : World S)
      → IsOn p good fd w.calls
      → IsOn p good fd (answer_request p fd level addr len w).1.calls
  unfolding send_response
  answer_request-IsOn level addr len w open_now =
      let (bytes, run) = answer_request_sends p fd level addr len w in
      let first = get_current_sntp_time-IsOn (p.answers.unset_time w.calls) w open_now in
      let second = get_current_sntp_time-IsOn (first_reading p w).0 (first_reading p w).1 first in
      rw run (ground arith)

pub answer_request-state {ℓ} :
    {S : Type ℓ} (p : Platform) (fd : ℤ) (level : ℕ) (addr : Bytes) (len : ℕ) (w : World S)
    → (answer_request p fd level addr len w).1.state ≡ w.state
unfolding send_response
answer_request-state p fd level addr len w =
    let (bytes, run) = answer_request_sends p fd level addr len w in
    let first = get_current_sntp_time_frame p (p.answers.unset_time w.calls) w in
    let second = get_current_sntp_time_frame p (first_reading p w).0 (first_reading p w).1 in
    rw run (ground arith)
