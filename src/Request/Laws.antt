-- ===== src/Request/Laws.antt =====
-- The run of `process_sntp_request` (fsw/src/sntp.c), up to its `sendto`.
use mathlib.Core.Option
use cfe_sntp.Base.{
  ℕ, some, replicate, ◌≡◌, ap, if◌then◌else◌, ◌∙◌, Bytes, length, AreBytes, ℤ, ==ℤ_refl, ◌∷◌, arith,
  is_negative,
}
use cfe_sntp.Platform.{Platform, Timestamp, Call}
use cfe_sntp.Platform.Laws.{IsHost, IsCoreSntp, IsAnswers, IsTimestamp}
use cfe_sntp.World.{World}
use cfe_sntp.Packet.{deserialize_request, store_time, encode_time}
use cfe_sntp.Packet.Decode.{deserialize_request-IsDecoded}
use cfe_sntp.Clock.{get_current_sntp_time}
use cfe_sntp.Clock.Laws.{get_current_sntp_time-IsTimestamp, get_current_sntp_time_frame}
use cfe_sntp.Request.{set_details, receive_slot, transmit_slot, answer_request, send_response}
use cfe_sntp.Request.Reply.{IsReply, response-IsReply}

module _ {ℓ} {S : Type ℓ} (p : Platform) where
  -- The two readings of the clock, each with the world after it.
  abbrev pub first_reading : World S → Timestamp × World S
  first_reading w = get_current_sntp_time p (p.answers.unset_time w.calls) w

  abbrev pub second_reading : World S → Timestamp × World S
  second_reading w = get_current_sntp_time p (first_reading w).0 (first_reading w).1

  -- The bytes that are sent.
  abbrev sent_bytes : ℕ → World S → Bytes
  sent_bytes level w =
      let local = p.answers.unset_packet w.calls in
      let decoded = deserialize_request p (first_reading w).1.net_buf (some local) in
      let response =
        store_time p receive_slot (encode_time p (first_reading w).0)
          (replicate p.sntp.packet_size 0) in
      store_time p transmit_slot (encode_time p (second_reading w).0)
        (set_details p level (Option.get_or decoded.1 local) response)

  -- Decoding never fails, so that every run of the handler comes to `sendto`.
  pub answer_request_sends :
      (sockfd : ℤ) (level : ℕ) (addr : Bytes) (len : ℕ) (w : World S)
      → (bytes : Bytes) × (answer_request p sockfd level addr len w
          ≡ send_response p sockfd bytes addr len (second_reading w).1)
  unfolding answer_request deserialize_request
  answer_request_sends sockfd level addr len w = (sent_bytes level w, rw (==ℤ_refl p.sntp.success))

  -- Every run of the handler sends one datagram. Its status is that of a success if `sendto` did not
  -- fail, and that of a network failure if it did: no request is found invalid.
  pub answer_request_status :
      (sockfd : ℤ) (level : ℕ) (addr : Bytes) (len : ℕ) (w : World S)
      → (bytes : Bytes) × (answer_request p sockfd level addr len w
          ≡ send_response p sockfd bytes addr len (second_reading w).1)
        × let h = Call.sendto sockfd bytes addr len ∷ (second_reading w).1.calls in
          (answer_request p sockfd level addr len w).0
          ≡ (if is_negative (p.answers.ret h) then p.sntp.error_network_failure else p.sntp.success)
  unfolding send_response
  answer_request_status sockfd level addr len w =
      let (bytes, run) = answer_request_sends sockfd level addr len w in
      (bytes, run, ap (λ r. r.0) run ∙ ground arith)

module _ {ℓ} {S : Type ℓ} (p : Platform) (host : IsHost p.host) (sntp : IsCoreSntp p.sntp)
    (answers : IsAnswers p) (w : World S) (size : length w.net_buf ≡ p.sntp.packet_size)
    (bytes : AreBytes w.net_buf) where
  -- Whatever 48 bytes stand in the buffer, exactly one reply is sent.
  pub answer_request-IsReply :
      (sockfd : ℤ) (level : ℕ) (addr : Bytes) (len : ℕ)
      → (reply : Bytes) × IsReply p level w.net_buf
          (first_reading p w).0
          (second_reading p w).0
          reply
        × (answer_request p sockfd level addr len w
            ≡ send_response p sockfd reply addr len (second_reading p w).1)
  unfolding answer_request set_details
  answer_request-IsReply sockfd level addr len =
      let received_range : IsTimestamp (first_reading p w).0 =
        get_current_sntp_time-IsTimestamp p answers _ w (answers.unset_time_range w.calls) in
      let sent_range : IsTimestamp (second_reading p w).0 =
        get_current_sntp_time-IsTimestamp p answers _ (first_reading p w).1 received_range in
      let local = p.answers.unset_packet w.calls in
      let local_size = answers.length-unset_packet w.calls in
      let (request, decodes, decoded) =
        deserialize_request-IsDecoded p host sntp w.net_buf local size local_size bytes in
      (
        _,
        response-IsReply p host sntp level w.net_buf local request _ _ decoded size bytes
            received_range sent_range,
        rw (
          (get_current_sntp_time_frame p (p.answers.unset_time w.calls) w).1,
          decodes,
          ==ℤ_refl p.sntp.success,
        ),
      )
