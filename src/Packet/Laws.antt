-- ===== src/Packet/Laws.antt =====
-- Stores and loads of a packet's members (fsw/src/sntp_utils.h, fsw/src/sntp_utils.c).
use cfe_sntp.Base.{
  ℕ, ◌%◌, ◌^◌, ◌<◌, ◌≡◌, sym, ap, ◌∙◌, ◌≢◌, ◌⊎◌, inl, inr, [], ◌∷◌, Bytes, length, slice, be32,
  from_be32, AreBytes, be32-from_be32, length-write, length-slice, slice-AreBytes, from_be32-lt,
  slice-write_self, slice-write_apart, arith,
}
use cfe_sntp.Platform.{
  Platform, Field, leap_version_mode, stratum, ref_id, origin_seconds, origin_fractions,
  receive_seconds, receive_fractions, transmit_seconds, transmit_fractions,
}
use cfe_sntp.Platform.Laws.{IsHost, IsCoreSntp, IsWord}
use cfe_sntp.Packet.{first_byte, load_byte, image, store_field, field_bytes, load_word}

module _ (p : Platform) (sntp : IsCoreSntp p.sntp) where
  widths : (f : Field) → (p.sntp.width f ≡ 1) ⊎ (p.sntp.width f ≡ 4)
  widths leap_version_mode = inl sntp.byte_leap
  widths stratum = inl sntp.byte_stratum
  widths ref_id = inr sntp.word_ref_id
  widths origin_seconds = inr sntp.word_origin_seconds
  widths origin_fractions = inr sntp.word_origin_fractions
  widths receive_seconds = inr sntp.word_receive_seconds
  widths receive_fractions = inr sntp.word_receive_fractions
  widths transmit_seconds = inr sntp.word_transmit_seconds
  widths transmit_fractions = inr sntp.word_transmit_fractions

module _ (p : Platform) (host : IsHost p.host) (sntp : IsCoreSntp p.sntp) where
  pub length-image : (f : Field) (v : ℕ) → length (image p f v) ≡ p.sntp.width f
  unfolding image
  length-image f v = ground (arith, widths p sntp f, host.length-store32 v)

  pub length-store_field :
      (f : Field) (v : ℕ) (packet : Bytes) → length (store_field p f v packet) ≡ length packet
  unfolding store_field
  length-store_field f v packet = length-write (p.sntp.offset f) (image p f v) packet

  -- A member that was set reads as the image of its value.
  pub field_bytes-store_self :
      (f : Field) (v : ℕ) (packet : Bytes)
      → length packet ≡ p.sntp.packet_size
      → field_bytes p f (store_field p f v packet) ≡ image p f v
  unfolding field_bytes store_field
  field_bytes-store_self f v packet size =
      ap (λ n. slice (p.sntp.offset f) n (store_field p f v packet)) (sym (length-image f v))
      ∙ slice-write_self (p.sntp.offset f) (image p f v) packet
          (omega (arith, length-image f v, sntp.fits f))

  -- The other members keep their bytes.
  pub field_bytes-store_apart :
      (f g : Field) (v : ℕ) (packet : Bytes)
      → f ≢ g
      → field_bytes p g (store_field p f v packet) ≡ field_bytes p g packet
  unfolding field_bytes store_field
  field_bytes-store_apart f g v packet ne =
      slice-write_apart (p.sntp.offset g) (p.sntp.width g) (p.sntp.offset f) (image p f v) packet
        (elim (sntp.apart f g ne) [ inl h ↦ inr (omega (arith, length-image f v)) | inr h ↦ inl h ])

  -- A word that was converted reads in network byte order.
  pub field_bytes-store_htonl :
      (f : Field) (v : ℕ) (packet : Bytes)
      → IsWord p.sntp f
      → v < 2 ^ 32
      → length packet ≡ p.sntp.packet_size
      → field_bytes p f (store_field p f (p.host.htonl v) packet) ≡ be32 v
  unfolding image
  field_bytes-store_htonl f v packet word range size =
      ground (arith, field_bytes-store_self f (p.host.htonl v) packet, host.store32-htonl v)

  length-field_bytes :
      (f : Field) (packet : Bytes)
      → length packet ≡ p.sntp.packet_size
      → length (field_bytes p f packet) ≡ p.sntp.width f
  unfolding field_bytes
  length-field_bytes f packet size =
      length-slice (p.sntp.offset f) (p.sntp.width f) packet (omega (arith, sntp.fits f))

  pub field_bytes-AreBytes :
      (f : Field) (packet : Bytes) → AreBytes packet → AreBytes (field_bytes p f packet)
  unfolding field_bytes
  field_bytes-AreBytes f packet h = slice-AreBytes (p.sntp.offset f) (p.sntp.width f) packet h

  -- A word that is read and converted has the value of its bytes in network order.
  pub ntohl-load_word :
      (f : Field) (packet : Bytes)
      → IsWord p.sntp f
      → length packet ≡ p.sntp.packet_size
      → AreBytes packet
      → p.host.ntohl (load_word p f packet) ≡ from_be32 (field_bytes p f packet)
  unfolding load_word
  ntohl-load_word f packet word size bytes =
      host.ntohl-load32 (field_bytes p f packet) (length-field_bytes f packet size ∙ word)
        (field_bytes-AreBytes f packet bytes)

  pub ntohl-load_word-lt :
      (f : Field) (packet : Bytes)
      → IsWord p.sntp f
      → length packet ≡ p.sntp.packet_size
      → AreBytes packet
      → p.host.ntohl (load_word p f packet) < 2 ^ 32
  ntohl-load_word-lt f packet word size bytes =
      rw (ntohl-load_word f packet word size bytes)
        (from_be32-lt (field_bytes p f packet) (field_bytes-AreBytes f packet bytes))

  -- Converting the value of a word back gives its bytes.
  pub be32-field_bytes :
      (f : Field) (packet : Bytes)
      → IsWord p.sntp f
      → length packet ≡ p.sntp.packet_size
      → AreBytes packet
      → be32 (from_be32 (field_bytes p f packet)) ≡ field_bytes p f packet
  be32-field_bytes f packet word size bytes =
      be32-from_be32 (field_bytes p f packet) (length-field_bytes f packet size ∙ word)
        (field_bytes-AreBytes f packet bytes)

  -- A word that was set is read back.
  pub load_word-store_self :
      (f : Field) (v : ℕ) (packet : Bytes)
      → IsWord p.sntp f
      → v < 2 ^ 32
      → length packet ≡ p.sntp.packet_size
      → load_word p f (store_field p f v packet) ≡ v
  unfolding load_word image
  load_word-store_self f v packet word range size =
      ground (arith, field_bytes-store_self f v packet, host.load32-store32 v)

  pub load_word-store_apart :
      (f g : Field) (v : ℕ) (packet : Bytes)
      → f ≢ g
      → load_word p g (store_field p f v packet) ≡ load_word p g packet
  unfolding load_word
  load_word-store_apart f g v packet ne = ap p.host.load32 (field_bytes-store_apart f g v packet ne)

  single : (bs : Bytes) → length bs ≡ 1 → AreBytes bs → first_byte bs % 256 ∷ [] ≡ bs
  single [] h k = absurd (omega arith)
  single (b ∷ []) h k = ground arith
  single (b ∷ c ∷ bs) h k = absurd (omega arith)

  -- The byte of the mode is copied as it is.
  pub image-load_byte :
      (f : Field) (packet : Bytes)
      → p.sntp.width f ≡ 1
      → length packet ≡ p.sntp.packet_size
      → AreBytes packet
      → image p f (load_byte p f packet) ≡ field_bytes p f packet
  unfolding image load_byte
  image-load_byte f packet byte size bytes = rw byte (
      single (field_bytes p f packet) (length-field_bytes f packet size ∙ byte)
        (field_bytes-AreBytes f packet bytes))
