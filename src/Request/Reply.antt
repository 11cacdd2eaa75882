-- ===== src/Request/Reply.antt =====
-- What a reply of SNTP must hold, member by member, and the response that is built here.
use Prim.Native.Nat.{bit_or}
use cfe_sntp.Base.{
  ℕ, ◌*◌, ◌%◌, ◌^◌, ◌≡◌, ap, ◌∙◌, ◌≢◌, [], ◌∷◌, Bytes, length, length-replicate, slice, replicate,
  be32, from_be32-lt, AreBytes,
}
use cfe_sntp.Platform.{
  Platform, Timestamp, Field, leap_version_mode, stratum, ref_id, origin_seconds, origin_fractions,
  receive_seconds, receive_fractions, transmit_seconds, transmit_fractions,
}
use cfe_sntp.Platform.Laws.{IsHost, IsCoreSntp, IsTimestamp}
use cfe_sntp.Packet.{store_field, store_time, load_time, encode_time, image, field_bytes}
use cfe_sntp.Packet.Laws.{
  field_bytes-store_self, field_bytes-store_apart, field_bytes-store_htonl, length-store_field,
  be32-field_bytes, field_bytes-AreBytes,
}
use cfe_sntp.Packet.Decode.{IsDecoded}
use cfe_sntp.Packet.Times.{
  OutsideFields, length-store_time, field_bytes-store_time_apart, store_time_seconds,
  store_time_fractions, slice-store_field, slice-store_time,
}
use cfe_sntp.Request.{origin_slot, receive_slot, transmit_slot}

pub record IsReply (p : Platform) (level : ℕ) (request : Bytes) (received sent : Timestamp)
    (reply : Bytes) : Type 0 where
  pub size : length reply ≡ p.sntp.packet_size
  pub mode :
      field_bytes p leap_version_mode reply
      ≡ bit_or p.sntp.mode_server (p.sntp.version * 2 ^ p.sntp.version_lsb_position) % 256 ∷ []
  pub stratum_level : field_bytes p stratum reply ≡ level % 256 ∷ []
  pub no_kiss : field_bytes p ref_id reply ≡ be32 p.sntp.kiss_of_death_code_none
  pub echoed_seconds : field_bytes p origin_seconds reply ≡ field_bytes p transmit_seconds request
  pub echoed_fractions :
      field_bytes p origin_fractions reply ≡ field_bytes p transmit_fractions request
  pub receive_seconds : field_bytes p receive_seconds reply ≡ be32 received.seconds
  pub receive_fractions : field_bytes p receive_fractions reply ≡ be32 received.fractions
  pub transmit_seconds : field_bytes p transmit_seconds reply ≡ be32 sent.seconds
  pub transmit_fractions : field_bytes p transmit_fractions reply ≡ be32 sent.fractions
  pub cleared :
      (off n : ℕ)
      → OutsideFields p off n
      → slice off n reply ≡ slice off n (replicate p.sntp.packet_size 0)

module _ (p : Platform) (host : IsHost p.host) (sntp : IsCoreSntp p.sntp) (level : ℕ)
    (buf local request : Bytes) (received sent : Timestamp)
    (decoded : IsDecoded p buf local request) (buf_size : length buf ≡ p.sntp.packet_size)
    (bytes : AreBytes buf) (received_range : IsTimestamp received)
    (sent_range : IsTimestamp sent) where
  abbrev pub cleared_packet : Bytes
  cleared_packet = replicate p.sntp.packet_size 0

  abbrev pub with_receive : Bytes
  with_receive = store_time p receive_slot (encode_time p received) cleared_packet

  abbrev pub with_origin : Bytes
  with_origin =
      store_time p origin_slot (encode_time p (load_time p transmit_slot request)) with_receive

  abbrev pub with_mode : Bytes
  with_mode =
      store_field p leap_version_mode
        (bit_or p.sntp.mode_server (p.sntp.version * 2 ^ p.sntp.version_lsb_position)) with_origin

  abbrev pub with_stratum : Bytes
  with_stratum = store_field p stratum level with_mode

  abbrev pub with_details : Bytes
  with_details = store_field p ref_id (p.host.htonl p.sntp.kiss_of_death_code_none) with_stratum

  abbrev pub response : Bytes
  response = store_time p transmit_slot (encode_time p sent) with_details

  size_receive : length with_receive ≡ p.sntp.packet_size
  size_receive = length-store_time p host sntp receive_slot _ _ ∙ length-replicate _ 0

  size_origin : length with_origin ≡ p.sntp.packet_size
  size_origin = length-store_time p host sntp origin_slot _ _ ∙ size_receive

  size_mode : length with_mode ≡ p.sntp.packet_size
  size_mode = length-store_field p host sntp leap_version_mode _ _ ∙ size_origin

  size_stratum : length with_stratum ≡ p.sntp.packet_size
  size_stratum = length-store_field p host sntp stratum _ _ ∙ size_mode

  size_details : length with_details ≡ p.sntp.packet_size
  size_details = length-store_field p host sntp ref_id _ _ ∙ size_stratum

  -- The members set before the last two keep their bytes.
  kept :
      (f : Field)
      → transmit_seconds ≢ f
      → transmit_fractions ≢ f
      → field_bytes p f response ≡ field_bytes p f with_details
  kept f = λ n n'. field_bytes-store_time_apart p host sntp transmit_slot f _ _ n n'

  kept_details :
      (f : Field)
      → ref_id ≢ f
      → stratum ≢ f
      → leap_version_mode ≢ f
      → field_bytes p f with_details ≡ field_bytes p f with_origin
  kept_details f = λ n n' n''.
      field_bytes-store_apart p host sntp ref_id f _ _ n
      ∙ field_bytes-store_apart p host sntp stratum f _ _ n'
      ∙ field_bytes-store_apart p host sntp leap_version_mode f _ _ n''

  -- The request's timestamp is that of the buffer, in the host's order.
  echoed : Timestamp
  echoed = load_time p transmit_slot request

  echoed_range : IsTimestamp echoed
  unfolding echoed load_time
  echoed_range = (
    rw decoded.seconds (
        from_be32-lt (field_bytes p transmit_seconds buf)
          (field_bytes-AreBytes p host sntp transmit_seconds buf bytes)),
    rw decoded.fractions (
        from_be32-lt (field_bytes p transmit_fractions buf)
          (field_bytes-AreBytes p host sntp transmit_fractions buf bytes)),
  )

  be32-echoed_seconds : be32 echoed.seconds ≡ field_bytes p transmit_seconds buf
  unfolding echoed load_time
  be32-echoed_seconds =
      ap be32 decoded.seconds
      ∙ be32-field_bytes p host sntp transmit_seconds buf sntp.word_transmit_seconds buf_size bytes

  be32-echoed_fractions : be32 echoed.fractions ≡ field_bytes p transmit_fractions buf
  unfolding echoed load_time
  be32-echoed_fractions =
      ap be32 decoded.fractions
      ∙ be32-field_bytes p host sntp transmit_fractions buf sntp.word_transmit_fractions buf_size
          bytes

  pub response-IsReply : IsReply p level buf received sent response
  unfolding image echoed
  response-IsReply = record {
    size = length-store_time p host sntp transmit_slot _ _ ∙ size_details;
    mode =
        kept leap_version_mode (λ e. cc) (λ e. cc)
        ∙ field_bytes-store_apart p host sntp ref_id leap_version_mode _ _ (λ e. cc)
        ∙ field_bytes-store_apart p host sntp stratum leap_version_mode _ _ (λ e. cc)
        ∙ field_bytes-store_self p host sntp leap_version_mode _ _ size_origin
        ∙ rw sntp.byte_leap;
    stratum_level =
        kept stratum (λ e. cc) (λ e. cc)
        ∙ field_bytes-store_apart p host sntp ref_id stratum _ _ (λ e. cc)
        ∙ field_bytes-store_self p host sntp stratum _ _ size_mode
        ∙ rw sntp.byte_stratum;
    no_kiss =
        kept ref_id (λ e. cc) (λ e. cc)
        ∙ field_bytes-store_htonl p host sntp ref_id _ _ sntp.word_ref_id sntp.kiss_range
            size_stratum;
    echoed_seconds =
        kept origin_seconds (λ e. cc) (λ e. cc)
        ∙ kept_details origin_seconds (λ e. cc) (λ e. cc) (λ e. cc)
        ∙ store_time_seconds p host sntp origin_slot echoed with_receive echoed_range size_receive
            sntp.word_origin_seconds (λ e. cc)
        ∙ be32-echoed_seconds;
    echoed_fractions =
        kept origin_fractions (λ e. cc) (λ e. cc)
        ∙ kept_details origin_fractions (λ e. cc) (λ e. cc) (λ e. cc)
        ∙ store_time_fractions p host sntp origin_slot echoed with_receive echoed_range size_receive
            sntp.word_origin_fractions
        ∙ be32-echoed_fractions;
    receive_seconds =
        kept receive_seconds (λ e. cc) (λ e. cc)
        ∙ kept_details receive_seconds (λ e. cc) (λ e. cc) (λ e. cc)
        ∙ field_bytes-store_time_apart p host sntp origin_slot receive_seconds _ _ (λ e. cc)
            (λ e. cc)
        ∙ store_time_seconds p host sntp receive_slot received _ received_range
            (length-replicate _ 0) sntp.word_receive_seconds (λ e. cc);
    receive_fractions =
        kept receive_fractions (λ e. cc) (λ e. cc)
        ∙ kept_details receive_fractions (λ e. cc) (λ e. cc) (λ e. cc)
        ∙ field_bytes-store_time_apart p host sntp origin_slot receive_fractions _ _ (λ e. cc)
            (λ e. cc)
        ∙ store_time_fractions p host sntp receive_slot received _ received_range
            (length-replicate _ 0) sntp.word_receive_fractions;
    transmit_seconds =
        store_time_seconds p host sntp transmit_slot sent _ sent_range size_details
          sntp.word_transmit_seconds (λ e. cc);
    transmit_fractions =
        store_time_fractions p host sntp transmit_slot sent _ sent_range size_details
          sntp.word_transmit_fractions;
    cleared = λ off n out.
        slice-store_time p host sntp transmit_slot _ _ off n out
        ∙ slice-store_field p host sntp ref_id _ _ off n out
        ∙ slice-store_field p host sntp stratum _ _ off n out
        ∙ slice-store_field p host sntp leap_version_mode _ _ off n out
        ∙ slice-store_time p host sntp origin_slot _ _ off n out
        ∙ slice-store_time p host sntp receive_slot _ _ off n out;
  }
