-- ===== src/Packet/Decode.antt =====
-- The contract of `Sntp_DeserializeRequest`.
use cfe_sntp.Base.{◌≡◌, refl, sym, ◌∙◌, ◌≢◌, Bytes, some, length, from_be32, AreBytes}
use cfe_sntp.Platform.{Platform, Field, leap_version_mode, transmit_seconds, transmit_fractions}
use cfe_sntp.Platform.Laws.{IsHost, IsCoreSntp}
use cfe_sntp.Packet.{load_byte, load_word, store_field, field_bytes, deserialize_request}
use cfe_sntp.Packet.Laws.{
  length-store_field, field_bytes-store_self, field_bytes-store_apart, load_word-store_self,
  load_word-store_apart, ntohl-load_word-lt, ntohl-load_word, image-load_byte,
}

-- `request` is `local` with three members set: the mode byte of the buffer and the transmit
-- timestamp of the buffer, from network order to the host's.
pub record IsDecoded (p : Platform) (buf local request : Bytes) : Type 0 where
  pub size : length request ≡ p.sntp.packet_size
  pub mode : field_bytes p leap_version_mode request ≡ field_bytes p leap_version_mode buf
  pub seconds :
      load_word p transmit_seconds request ≡ from_be32 (field_bytes p transmit_seconds buf)
  pub fractions :
      load_word p transmit_fractions request ≡ from_be32 (field_bytes p transmit_fractions buf)
  pub others :
      (f : Field)
      → f ≢ leap_version_mode
      → f ≢ transmit_seconds
      → f ≢ transmit_fractions
      → field_bytes p f request ≡ field_bytes p f local

module _ (p : Platform) (host : IsHost p.host) (sntp : IsCoreSntp p.sntp) (buf local : Bytes)
    (buf_size : length buf ≡ p.sntp.packet_size) (local_size : length local ≡ p.sntp.packet_size)
    (bytes : AreBytes buf) where
  abbrev after_mode : Bytes
  after_mode = store_field p leap_version_mode (load_byte p leap_version_mode buf) local

  abbrev after_seconds : Bytes
  after_seconds =
      store_field p transmit_seconds (p.host.ntohl (load_word p transmit_seconds buf)) after_mode

  abbrev pub filled : Bytes
  filled =
      store_field p transmit_fractions (p.host.ntohl (load_word p transmit_fractions buf))
        after_seconds

  size_after_mode : length after_mode ≡ p.sntp.packet_size
  size_after_mode = length-store_field p host sntp leap_version_mode _ local ∙ local_size

  size_after_seconds : length after_seconds ≡ p.sntp.packet_size
  size_after_seconds =
      length-store_field p host sntp transmit_seconds _ after_mode ∙ size_after_mode

  filled-IsDecoded : IsDecoded p buf local filled
  filled-IsDecoded = record {
    size = length-store_field p host sntp transmit_fractions _ after_seconds ∙ size_after_seconds;
    mode =
        field_bytes-store_apart p host sntp transmit_fractions leap_version_mode _ after_seconds
          (λ e. cc)
        ∙ field_bytes-store_apart p host sntp transmit_seconds leap_version_mode _ after_mode
            (λ e. cc)
        ∙ field_bytes-store_self p host sntp leap_version_mode _ local local_size
        ∙ image-load_byte p host sntp leap_version_mode buf sntp.byte_leap buf_size bytes;
    seconds =
        load_word-store_apart p host sntp transmit_fractions transmit_seconds _ after_seconds
          (λ e. cc)
        ∙ load_word-store_self p host sntp transmit_seconds _ after_mode sntp.word_transmit_seconds
            (ntohl-load_word-lt p host sntp transmit_seconds buf sntp.word_transmit_seconds buf_size
              bytes)
            size_after_mode
        ∙ ntohl-load_word p host sntp transmit_seconds buf sntp.word_transmit_seconds buf_size
            bytes;
    fractions =
        load_word-store_self p host sntp transmit_fractions _ after_seconds
          sntp.word_transmit_fractions
          (ntohl-load_word-lt p host sntp transmit_fractions buf sntp.word_transmit_fractions
            buf_size bytes)
          size_after_seconds
        ∙ ntohl-load_word p host sntp transmit_fractions buf sntp.word_transmit_fractions buf_size
            bytes;
    others = λ f n1 n2 n3.
        field_bytes-store_apart p host sntp transmit_fractions f _ after_seconds (λ e. n3 (sym e))
        ∙ field_bytes-store_apart p host sntp transmit_seconds f _ after_mode (λ e. n2 (sym e))
        ∙ field_bytes-store_apart p host sntp leap_version_mode f _ local (λ e. n1 (sym e));
  }

  -- On a buffer and a request of the size of a packet `Sntp_DeserializeRequest` returns success,
  -- whatever the bytes say. It sets the mode byte and the transmit timestamp of the request to
  -- those of the buffer, the words in the host's order, and leaves the other members alone. The
  -- buffer holds bytes; the host and the packet's layout are as documented.
  pub deserialize_request-IsDecoded :
      (request : Bytes) × (deserialize_request p buf (some local) ≡ (p.sntp.success, some request))
      × IsDecoded p buf local request
  unfolding deserialize_request
  deserialize_request-IsDecoded = (filled, refl, filled-IsDecoded)
