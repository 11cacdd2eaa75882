-- ===== src/Request/Wire.antt =====
-- The reply of `process_sntp_request` (fsw/src/sntp.c) as the packet of RFC 4330.
use cfe_sntp.Base.{
  ℕ, ◌+◌, ◌%◌, ◌≤◌, ◌≡◌, refl, sym, ap, ◌∙◌, ◌⊎◌, [], ◌∷◌, ◌++◌, Bytes, length, drop, slice,
  replicate, be32, AreBytes, drop-slice, drop_all, ℤ, arith,
}
use cfe_sntp.Platform.{
  Platform, CoreSntp, Timestamp, Field, leap_version_mode, stratum, ref_id, origin_seconds,
  origin_fractions, receive_seconds, receive_fractions, transmit_seconds, transmit_fractions,
}
use cfe_sntp.Platform.Layouts.{rfc_offset, rfc_width}
use cfe_sntp.Platform.Laws.{IsHost, IsCoreSntp, IsAnswers}
use cfe_sntp.World.{World}
use cfe_sntp.Packet.{field_bytes}
use cfe_sntp.Packet.Times.{OutsideFields}
use cfe_sntp.Request.{answer_request, send_response}
use cfe_sntp.Request.Laws.{first_reading, second_reading, answer_request-IsReply}
use cfe_sntp.Request.Reply.{IsReply}

-- The layout and the constants of RFC 4330.
pub record IsRfc (s : CoreSntp) : Type 0 where
  pub offsets : (f : Field) → s.offset f ≡ rfc_offset f
  pub widths : (f : Field) → s.width f ≡ rfc_width f
  pub size : s.packet_size ≡ 48
  pub server : s.mode_server ≡ 4
  pub number : s.version ≡ 4
  pub position : s.version_lsb_position ≡ 3
  pub no_kiss : s.kiss_of_death_code_none ≡ 0

-- A server's reply: version 4 and mode 4, the stratum, no poll interval, precision, root delay,
-- root dispersion, reference id or reference time, the transmit time of the request, and the times of
-- arrival and sending.
abbrev pub rfc_reply : ℕ → Bytes → Timestamp → Timestamp → Bytes
rfc_reply level request received sent =
    (0x24 ∷ [])
    ++ ((level % 256 ∷ [])
        ++ (replicate 10 0
            ++ (replicate 4 0
                ++ (replicate 8 0
                    ++ (slice 40 4 request
                        ++ (slice 44 4 request
                            ++ (be32 received.seconds
                                ++ (be32 received.fractions
                                    ++ (be32 sent.seconds ++ (be32 sent.fractions ++ []))))))))))

-- The next members of a packet, before those that are cut already.
cut_member :
    (off n : ℕ) (xs : Bytes) {rest : Bytes}
    → drop (off + n) xs ≡ rest
    → drop off xs ≡ slice off n xs ++ rest
cut_member off n xs e = drop-slice off n xs ∙ ap (λ l. slice off n xs ++ l) e

cut_packet :
    (xs : Bytes)
    → length xs ≡ 48
    → xs
      ≡ slice 0 1 xs
        ++ (slice 1 1 xs
            ++ (slice 2 10 xs
                ++ (slice 12 4 xs
                    ++ (slice 16 8 xs
                        ++ (slice 24 4 xs
                            ++ (slice 28 4 xs
                                ++ (slice 32 4 xs
                                    ++ (slice 36 4 xs
                                        ++ (slice 40 4 xs ++ (slice 44 4 xs ++ []))))))))))
cut_packet xs size = cut_member 0 1 xs (
    cut_member 1 1 xs (
      cut_member 2 10 xs (
        cut_member 12 4 xs (
          cut_member 16 8 xs (
            cut_member 24 4 xs (
              cut_member 28 4 xs (
                cut_member 32 4 xs (
                  cut_member 36 4 xs
                    (cut_member 40 4 xs (cut_member 44 4 xs (drop_all 48 xs size)))))))))))

module _ (p : Platform) (rfc : IsRfc p.sntp) where
  pub field_bytes_rfc :
      (f : Field) (xs : Bytes) → field_bytes p f xs ≡ slice (rfc_offset f) (rfc_width f) xs
  unfolding field_bytes
  field_bytes_rfc f xs = rw (rfc.offsets f) (rw (rfc.widths f) refl)

  outside :
      (off n : ℕ)
      → ((f : Field) → (off + n ≤ rfc_offset f) ⊎ (rfc_offset f + rfc_width f ≤ off))
      → OutsideFields p off n
  outside off n apart f = rw (rfc.offsets f) (rw (rfc.widths f) (apart f))

  apart_head : (f : Field) → (2 + 10 ≤ rfc_offset f) ⊎ (rfc_offset f + rfc_width f ≤ 2)
  apart_head f = ground arith

  apart_reference : (f : Field) → (16 + 8 ≤ rfc_offset f) ⊎ (rfc_offset f + rfc_width f ≤ 16)
  apart_reference f = ground arith

  -- A reply that is right is that byte string.
  pub IsReply-rfc_reply :
      (level : ℕ) (request reply : Bytes) (received sent : Timestamp)
      → IsReply p level request received sent reply
      → reply ≡ rfc_reply level request received sent
  IsReply-rfc_reply level request reply received sent right =
      let size = right.size ∙ rfc.size in
      let at = λ (f : Field) (xs : Bytes). sym (field_bytes_rfc f xs) in
      let zeros = ap (λ n. replicate {A = ℕ} n 0) rfc.size in
      let mode : slice 0 1 reply ≡ 0x24 ∷ [] =
        at leap_version_mode reply
        ∙ right.mode
        ∙ rw rfc.server (rw rfc.number (rw rfc.position refl)) in
      let level_at : slice 1 1 reply ≡ level % 256 ∷ [] = at stratum reply ∙ right.stratum_level in
      let head : slice 2 10 reply ≡ replicate 10 0 =
        right.cleared 2 10 (outside 2 10 apart_head) ∙ ap (slice 2 10) zeros in
      let kiss : slice 12 4 reply ≡ replicate 4 0 =
        at ref_id reply ∙ right.no_kiss ∙ ap be32 rfc.no_kiss in
      let reference : slice 16 8 reply ≡ replicate 8 0 =
        right.cleared 16 8 (outside 16 8 apart_reference) ∙ ap (slice 16 8) zeros in
      let echo : slice 24 4 reply ≡ slice 40 4 request =
        at origin_seconds reply ∙ right.echoed_seconds ∙ field_bytes_rfc transmit_seconds request in
      let echo' : slice 28 4 reply ≡ slice 44 4 request =
        at origin_fractions reply
        ∙ right.echoed_fractions
        ∙ field_bytes_rfc transmit_fractions request in
      let arrival = at receive_seconds reply ∙ right.receive_seconds in
      let arrival' = at receive_fractions reply ∙ right.receive_fractions in
      let sending = at transmit_seconds reply ∙ right.transmit_seconds in
      let sending' = at transmit_fractions reply ∙ right.transmit_fractions in
      cut_packet reply size ∙ λ i.
      mode i
      ++ (level_at i
          ++ (head i
              ++ (kiss i
                  ++ (reference i
                      ++ (echo i
                          ++ (echo' i
                              ++ (arrival i
                                  ++ (arrival' i ++ (sending i ++ (sending' i ++ []))))))))))

module _ {ℓ} {S : Type ℓ} (p : Platform) (host : IsHost p.host) (sntp : IsCoreSntp p.sntp)
    (answers : IsAnswers p) (rfc : IsRfc p.sntp) where
  -- With the packet of RFC 4330 the handler sends the reply that is written out here: its bytes are
  -- those of the stratum, of the transmit time of the request in the buffer, and of what the two
  -- readings of the clock left in the handler's variable, which is what the stack held before where
  -- the system clock fails. Neither the host's byte order, nor what the local packet held before, nor
  -- which of the programs it runs in shows otherwise. The buffer holds the bytes of a packet; the
  -- host, the layout and the answers are as documented.
  pub answer_request-rfc_reply :
      (w : World S)
      → length w.net_buf ≡ 48
      → AreBytes w.net_buf
      → (sockfd : ℤ) (level : ℕ) (addr : Bytes) (len : ℕ)
      → answer_request p sockfd level addr len w
        ≡ send_response p sockfd
            (rfc_reply level w.net_buf (first_reading p w).0 (second_reading p w).0)
            addr
            len
            (second_reading p w).1
  answer_request-rfc_reply w size bytes sockfd level addr len =
      let (reply, right, run) =
        answer_request-IsReply p host sntp answers w (size ∙ sym rfc.size) bytes sockfd level addr
          len in
      run
      ∙ ap (λ b. send_response p sockfd b addr len (second_reading p w).1)
          (IsReply-rfc_reply p rfc level w.net_buf reply _ _ right)
