-- ===== src/Packet.antt =====
-- A packet as the bytes of a `SntpPacket_t`: members read and written at the layout's offsets,
-- `encodeTime` (fsw/src/sntp_utils.h) and `Sntp_DeserializeRequest` (fsw/src/sntp_utils.c).
pub mod Laws
pub mod Decode
pub mod Times
use cfe_sntp.Base.{ℕ, ◌%◌, [], ◌∷◌, Bytes, Option, none, some, ℤ, ◌==◌, if◌then◌else◌, write, slice}
use cfe_sntp.Platform.{
  Platform, Timestamp, Field, leap_version_mode, transmit_seconds, transmit_fractions,
}

-- The two members of a timestamp in a packet.
pub record Slot : Type 0 where
  pub seconds_at : Field
  pub fractions_at : Field

abbrev pub first_byte : Bytes → ℕ
first_byte [] = 0
first_byte (b ∷ _) = b

-- NET_BUF_SIZE
abbrev pub net_buf_size : Platform → ℕ
net_buf_size p = p.sntp.packet_base_size

module _ (p : Platform) where
  -- The image of a value in a member: one byte, or a word of the host.
  unfoldable pub image : Field → ℕ → Bytes
  image f v = if p.sntp.width f == 1 then (v % 256) ∷ [] else p.host.store32 v

  -- `packet.f = v`
  unfoldable pub store_field : Field → ℕ → Bytes → Bytes
  store_field f v packet = write (p.sntp.offset f) (image f v) packet

  -- The bytes of the member `f`.
  unfoldable pub field_bytes : Field → Bytes → Bytes
  field_bytes f packet = slice (p.sntp.offset f) (p.sntp.width f) packet

  -- `packet.f` of a word.
  unfoldable pub load_word : Field → Bytes → ℕ
  load_word f packet = p.host.load32 (field_bytes f packet)

  -- `packet.f` of a byte.
  unfoldable pub load_byte : Field → Bytes → ℕ
  load_byte f packet = first_byte (field_bytes f packet)

  -- `encodeTime`: both words in network order.
  unfoldable pub encode_time : Timestamp → Timestamp
  encode_time t = record { seconds = p.host.htonl t.seconds; fractions = p.host.htonl t.fractions }

  -- `packet.slot = t`, member by member.
  unfoldable pub store_time : Slot → Timestamp → Bytes → Bytes
  store_time slot t packet =
      store_field slot.fractions_at t.fractions (store_field slot.seconds_at t.seconds packet)

  unfoldable pub load_time : Slot → Bytes → Timestamp
  load_time slot packet = record {
    seconds = load_word slot.seconds_at packet;
    fractions = load_word slot.fractions_at packet;
  }

  -- `Sntp_DeserializeRequest`. `none` is the null pointer. Three members are set and the others
  -- keep what they held.
  unfoldable pub deserialize_request : Bytes → Option Bytes → ℤ × Option Bytes
  deserialize_request buf none = (p.sntp.error_bad_parameter, none)
  deserialize_request buf (some request) =
      let r1 = store_field leap_version_mode (load_byte leap_version_mode buf) request in
      let r2 = store_field transmit_seconds (p.host.ntohl (load_word transmit_seconds buf)) r1 in
      let r3 =
        store_field transmit_fractions (p.host.ntohl (load_word transmit_fractions buf)) r2 in
      (p.sntp.success, some r3)
