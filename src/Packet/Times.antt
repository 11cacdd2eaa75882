-- ===== src/Packet/Times.antt =====
-- Timestamps as pairs of members: what setting one changes, and what it leaves alone.
use cfe_sntp.Base.{ℕ, ◌+◌, ◌≤◌, ◌≡◌, ◌∙◌, ◌≢◌, ◌⊎◌, Bytes, length, slice, slice-write_apart, be32}
use cfe_sntp.Platform.{Platform, Timestamp, Field}
use cfe_sntp.Platform.Laws.{IsHost, IsCoreSntp, IsTimestamp, IsWord}
use cfe_sntp.Packet.{Slot, store_field, store_time, encode_time, image, field_bytes}
use cfe_sntp.Packet.Laws.{
  field_bytes-store_apart, field_bytes-store_htonl, length-store_field, length-image,
}

-- The range of `n` bytes at `off` meets no member that the program names.
abbrev pub OutsideFields : Platform → ℕ → ℕ → Type 0
OutsideFields p off n =
    (f : Field) → (off + n ≤ p.sntp.offset f) ⊎ (p.sntp.offset f + p.sntp.width f ≤ off)

module _ (p : Platform) (host : IsHost p.host) (sntp : IsCoreSntp p.sntp) where
  pub length-store_time :
      (slot : Slot) (t : Timestamp) (packet : Bytes)
      → length (store_time p slot t packet) ≡ length packet
  unfolding store_time
  length-store_time slot t packet =
      length-store_field p host sntp slot.fractions_at _ _
      ∙ length-store_field p host sntp slot.seconds_at _ packet

  -- Setting a timestamp leaves the other members alone.
  pub field_bytes-store_time_apart :
      (slot : Slot) (g : Field) (t : Timestamp) (packet : Bytes)
      → slot.seconds_at ≢ g
      → slot.fractions_at ≢ g
      → field_bytes p g (store_time p slot t packet) ≡ field_bytes p g packet
  unfolding store_time
  field_bytes-store_time_apart slot g t packet ne ne' =
      field_bytes-store_apart p host sntp slot.fractions_at g _ _ ne'
      ∙ field_bytes-store_apart p host sntp slot.seconds_at g _ packet ne

  module _ (slot : Slot) (t : Timestamp) (packet : Bytes) (range : IsTimestamp t)
      (size : length packet ≡ p.sntp.packet_size) where
    pub store_time_seconds :
        IsWord p.sntp slot.seconds_at
        → slot.fractions_at ≢ slot.seconds_at
        → field_bytes p slot.seconds_at (store_time p slot (encode_time p t) packet)
          ≡ be32 t.seconds
    unfolding store_time encode_time
    store_time_seconds word ne =
        field_bytes-store_apart p host sntp slot.fractions_at slot.seconds_at _ _ ne
        ∙ field_bytes-store_htonl p host sntp slot.seconds_at t.seconds packet word range.0 size

    pub store_time_fractions :
        IsWord p.sntp slot.fractions_at
        → field_bytes p slot.fractions_at (store_time p slot (encode_time p t) packet)
          ≡ be32 t.fractions
    unfolding store_time encode_time
    store_time_fractions word =
        field_bytes-store_htonl p host sntp slot.fractions_at t.fractions _ word range.1
          (length-store_field p host sntp slot.seconds_at _ packet ∙ size)

  -- A write into a member leaves what lies outside the members alone.
  pub slice-store_field :
      (f : Field) (v : ℕ) (packet : Bytes) (off n : ℕ)
      → OutsideFields p off n
      → slice off n (store_field p f v packet) ≡ slice off n packet
  unfolding store_field
  slice-store_field f v packet off n out =
      slice-write_apart off n (p.sntp.offset f) (image p f v) packet
        (rw (length-image p host sntp f v) (out f))

  pub slice-store_time :
      (slot : Slot) (t : Timestamp) (packet : Bytes) (off n : ℕ)
      → OutsideFields p off n
      → slice off n (store_time p slot t packet) ≡ slice off n packet
  unfolding store_time
  slice-store_time slot t packet off n out =
      slice-store_field slot.fractions_at _ _ off n out
      ∙ slice-store_field slot.seconds_at _ packet off n out
