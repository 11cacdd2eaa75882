-- ===== src/App/Replies/Request.antt =====
-- What the parts of `SNTP_Main` (fsw/src/sntp.c) add to the replies and to the requests.
use cfe_sntp.Base.{ℕ, Bytes, ℤ, ◌≡◌, ◌∷◌, ◌∙◌, ap, arith}
use cfe_sntp.Platform.{Platform, Timestamp, Call}
use cfe_sntp.World.{World, call}
use cfe_sntp.Clock.{get_current_sntp_time}
use cfe_sntp.Request.{answer_request, send_response}
use cfe_sntp.Request.Laws.{second_reading, answer_request_sends}
use cfe_sntp.App.{SntpData}
use cfe_sntp.App.Command.{
  verify_cmd_length, noop, reset_counters, report_housekeeping, process_ground_command,
  process_command_packet,
}
use cfe_sntp.App.Init.Keeps.{IsSetup, start-keeps}
use cfe_sntp.App.Main.{poll_command, start}
use cfe_sntp.App.Replies.{destinations, requesters, requests, Quiet}

module _ {ℓ} {S : Type ℓ} (p : Platform) where
  get_current_sntp_time-Quiet :
      (old : Timestamp) (w : World S) → Quiet p w (get_current_sntp_time p old w).1
  unfolding get_current_sntp_time
  get_current_sntp_time-Quiet old w = ground arith

  second_reading-Quiet : (w : World S) → Quiet p w (second_reading p w).1
  second_reading-Quiet w =
      let a = get_current_sntp_time-Quiet (p.answers.unset_time w.calls) w in
      let b = get_current_sntp_time-Quiet _ _ in
      record {
        same_destinations = b.same_destinations ∙ a.same_destinations;
        same_requesters = b.same_requesters ∙ a.same_requesters;
        same_requests = b.same_requests ∙ a.same_requests;
        same_sends = b.same_sends ∙ a.same_sends;
        same_buffer = b.same_buffer ∙ a.same_buffer;
      }

  send_response-replies :
      (fd : ℤ) (bytes addr : Bytes) (len : ℕ) (w : World S)
      → let w' = (send_response p fd bytes addr len w).1 in
        (destinations w'.calls
          ≡ record { sockfd = fd; addr = addr; len = len } ∷ destinations w.calls)
        × (requesters p w'.calls ≡ requesters p w.calls)
        × (requests p w'.calls ≡ requests p w.calls)
        × (w'.net_buf ≡ w.net_buf)
  unfolding send_response
  send_response-replies fd bytes addr len w = ground arith

  pub answer_request-replies :
      (fd : ℤ) (level : ℕ) (addr : Bytes) (len : ℕ) (w : World S)
      → let w' = (answer_request p fd level addr len w).1 in
        (destinations w'.calls
          ≡ record { sockfd = fd; addr = addr; len = len } ∷ destinations w.calls)
        × (requesters p w'.calls ≡ requesters p w.calls)
        × (requests p w'.calls ≡ requests p w.calls)
        × (w'.net_buf ≡ w.net_buf)
  answer_request-replies fd level addr len w =
      let (bytes, run) = answer_request_sends p fd level addr len w in
      let quiet = second_reading-Quiet w in
      let sent = send_response-replies fd bytes addr len (second_reading p w).1 in
      (
        ap (λ r. destinations r.1.calls) run
            ∙ sent.0
            ∙ ap (λ l. record { sockfd = fd; addr = addr; len = len } ∷ l) quiet.same_destinations,
        ap (λ r. requesters p r.1.calls) run ∙ sent.1 ∙ quiet.same_requesters,
        ap (λ r. requests p r.1.calls) run ∙ sent.2 ∙ quiet.same_requests,
        ap (λ r. r.1.net_buf) run ∙ sent.3 ∙ quiet.same_buffer,
      )

module _ (p : Platform) where
  process_ground_command-Quiet :
      (msg : Bytes) (w : World SntpData) → Quiet p w (process_ground_command p msg w).1
  unfolding process_ground_command verify_cmd_length noop reset_counters
  process_ground_command-Quiet msg w = ground arith

  process_command_packet-Quiet :
      (msg : Bytes) (w : World SntpData) → Quiet p w (process_command_packet p msg w).1
  unfolding process_command_packet report_housekeeping
  process_command_packet-Quiet msg w = ground (arith, process_ground_command-Quiet msg w)

  pub poll_command-Quiet : (w : World SntpData) → Quiet p w (poll_command p w).1
  unfolding poll_command
  poll_command-Quiet w = grind (arith, process_command_packet-Quiet)

  setup-Quiet :
      (u : World SntpData) (c : Call) (w : World SntpData)
      → IsSetup c
      → Quiet p u w
      → Quiet p u (call p c w).1
  setup-Quiet u c w setup quiet = ground arith

  pub start-Quiet : (w : World SntpData) → Quiet p w (start p w).1
  start-Quiet w =
      start-keeps p (Quiet p w) (λ s v quiet. ground arith) (setup-Quiet w) w (ground arith)
