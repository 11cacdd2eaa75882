-- ===== src/Platform/Layouts.antt =====
-- Platforms for the tests: a little-endian and a big-endian host, and the layout of a packet in
-- RFC 4330.
use Prim.Native.String.{String}
use cfe_sntp.Base.{
  ℕ, ◌+◌, ◌-◌, ◌*◌, ◌/◌, ◌%◌, ◌^◌, ◌≤◌, ◌≡◌, refl, ◌≢◌, [], ◌∷◌, Bytes, length, be32, from_be32,
  AreBytes, codes, ℤ, pos, arith,
}
use cfe_sntp.Platform.{
  Host, CoreSntp, Field, leap_version_mode, stratum, ref_id, origin_seconds, origin_fractions,
  receive_seconds, receive_fractions, transmit_seconds, transmit_fractions,
}
use cfe_sntp.Platform.Laws.{IsHost, IsCoreSntp, Apart}

abbrev le32 : ℕ → Bytes
le32 x = x % 256 ∷ x / 2 ^ 8 % 256 ∷ x / 2 ^ 16 % 256 ∷ x / 2 ^ 24 % 256 ∷ []

abbrev from_le32 : Bytes → ℕ
from_le32 (a ∷ b ∷ c ∷ d ∷ []) = d * 2 ^ 24 + c * 2 ^ 16 + b * 2 ^ 8 + a
from_le32 _ = 0

-- Decimal digits only.
abbrev digits_value : ℕ → Bytes → ℕ
digits_value acc [] = acc
digits_value acc (b ∷ bs) = digits_value (acc * 10 + (b - 48)) bs

abbrev small_atoi : String → ℤ
small_atoi text = pos (digits_value 0 (codes text))

abbrev pub little_endian : Host
little_endian = record {
  store32 = le32;
  load32 = from_le32;
  htonl = λ x. from_le32 (be32 x);
  ntohl = λ x. from_be32 (le32 x);
  htons = λ x. x % 256 * 256 + x / 256 % 256;
  atoi = small_atoi;
  strerror = λ errno. "error";
  sockaddr_in = λ port addr. 2 ∷ 0 ∷ port ∷ addr;
}

abbrev pub big_endian : Host
big_endian = record {
  store32 = be32;
  load32 = from_be32;
  htonl = λ x. x;
  ntohl = λ x. x;
  htons = λ x. x;
  atoi = small_atoi;
  strerror = λ errno. "error";
  sockaddr_in = λ port addr. 2 ∷ 0 ∷ port ∷ addr;
}

swap_bytes :
    (bs : Bytes) → length bs ≡ 4 → AreBytes bs → from_be32 (le32 (from_le32 bs)) ≡ from_be32 bs
swap_bytes (a ∷ b ∷ c ∷ d ∷ []) h k = omega arith
swap_bytes [] h k = absurd (omega arith)
swap_bytes (a ∷ []) h k = absurd (omega arith)
swap_bytes (a ∷ b ∷ []) h k = absurd (omega arith)
swap_bytes (a ∷ b ∷ c ∷ []) h k = absurd (omega arith)
swap_bytes (a ∷ b ∷ c ∷ d ∷ e ∷ r) h k = absurd (omega arith)

pub little_endian-IsHost : IsHost little_endian
little_endian-IsHost = record {
  length-store32 = λ x. refl;
  store32-htonl = λ x h. ground arith;
  load32-store32 = λ x h. omega arith;
  ntohl-load32 = swap_bytes;
}

pub big_endian-IsHost : IsHost big_endian
big_endian-IsHost = record {
  length-store32 = λ x. refl;
  store32-htonl = λ x h. refl;
  load32-store32 = λ x h. omega arith;
  ntohl-load32 = λ bs h k. refl;
}

abbrev pub rfc_offset : Field → ℕ
rfc_offset leap_version_mode = 0
rfc_offset stratum = 1
rfc_offset ref_id = 12
rfc_offset origin_seconds = 24
rfc_offset origin_fractions = 28
rfc_offset receive_seconds = 32
rfc_offset receive_fractions = 36
rfc_offset transmit_seconds = 40
rfc_offset transmit_fractions = 44

abbrev pub rfc_width : Field → ℕ
rfc_width leap_version_mode = 1
rfc_width stratum = 1
rfc_width _ = 4

abbrev pub rfc_sntp : CoreSntp
rfc_sntp = record {
  offset = rfc_offset;
  width = rfc_width;
  packet_size = 48;
  packet_base_size = 48;
  mode_server = 4;
  version = 4;
  version_lsb_position = 3;
  kiss_of_death_code_none = 0;
  time_at_unix_epoch_secs = 2208988800;
  fraction_value_per_microsecond = 4295;
  success = pos 0;
  error_bad_parameter = pos 1;
  error_network_failure = pos 11;
  no_response_received = pos 16;
  serialize_request = λ time random buf size. (pos 0, time, buf);
  deserialize_response = λ request response buf size.
      (pos 0, record { server_time = response; clock_offset_ms = pos 0 });
}

rfc_fits : (f : Field) → rfc_offset f + rfc_width f ≤ 48
rfc_fits leap_version_mode = omega arith
rfc_fits _ = omega arith

rfc_sntp-Apart : (f g : Field) → f ≢ g → Apart rfc_sntp f g
rfc_sntp-Apart f g h = ground arith

pub rfc_sntp-IsCoreSntp : IsCoreSntp rfc_sntp
rfc_sntp-IsCoreSntp = record {
  fits = rfc_fits;
  apart = rfc_sntp-Apart;
  byte_leap = refl;
  byte_stratum = refl;
  word_ref_id = refl;
  word_origin_seconds = refl;
  word_origin_fractions = refl;
  word_receive_seconds = refl;
  word_receive_fractions = refl;
  word_transmit_seconds = refl;
  word_transmit_fractions = refl;
  failure_differs = ground arith;
  kiss_range = omega arith;
  base_size = refl;
}
