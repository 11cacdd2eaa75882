-- ===== src/Platform/Laws.antt =====
-- What the program relies on from its platform, as its documentation states it.
use cfe_sntp.Base.{
  ℕ, ◌+◌, ◌^◌, ◌≤◌, ◌<◌, ◌≡◌, ◌≢◌, ◌⊎◌, List, ◌∷◌, false, Bytes, length, be32, from_be32, AreBytes,
}
use cfe_sntp.Telemetry.{HkTlm}
use cfe_sntp.Platform.{
  Platform, Call, Timestamp, Host, CoreSntp, Field, leap_version_mode, stratum, ref_id,
  origin_seconds, origin_fractions, receive_seconds, receive_fractions, transmit_seconds,
  transmit_fractions,
}

-- `htonl` gives the value whose image in memory is in network byte order, `ntohl` reads one.
pub record IsHost (h : Host) : Type 0 where
  pub length-store32 : (x : ℕ) → length (h.store32 x) ≡ 4
  pub store32-htonl : (x : ℕ) → x < 2 ^ 32 → h.store32 (h.htonl x) ≡ be32 x
  pub load32-store32 : (x : ℕ) → x < 2 ^ 32 → h.load32 (h.store32 x) ≡ x
  pub ntohl-load32 :
      (bs : Bytes) → length bs ≡ 4 → AreBytes bs → h.ntohl (h.load32 bs) ≡ from_be32 bs

abbrev pub IsWord : CoreSntp → Field → Type 0
IsWord s f = s.width f ≡ 4

-- Two members of a struct do not overlap.
abbrev pub Apart : CoreSntp → Field → Field → Type 0
Apart s f g = (s.offset f + s.width f ≤ s.offset g) ⊎ (s.offset g + s.width g ≤ s.offset f)

-- `SntpPacket_t` is a struct of two `uint8_t` and of words; the constants fit their fields.
pub record IsCoreSntp (s : CoreSntp) : Type 0 where
  pub fits : (f : Field) → s.offset f + s.width f ≤ s.packet_size
  pub apart : (f g : Field) → f ≢ g → Apart s f g
  pub byte_leap : s.width leap_version_mode ≡ 1
  pub byte_stratum : s.width stratum ≡ 1
  pub word_ref_id : IsWord s ref_id
  pub word_origin_seconds : IsWord s origin_seconds
  pub word_origin_fractions : IsWord s origin_fractions
  pub word_receive_seconds : IsWord s receive_seconds
  pub word_receive_fractions : IsWord s receive_fractions
  pub word_transmit_seconds : IsWord s transmit_seconds
  pub word_transmit_fractions : IsWord s transmit_fractions
  pub failure_differs : s.error_network_failure ≢ s.success
  pub kiss_range : s.kiss_of_death_code_none < 2 ^ 32
  pub base_size : s.packet_base_size ≡ s.packet_size

abbrev pub IsTimestamp : Timestamp → Type 0
IsTimestamp t = (t.seconds < 2 ^ 32) × (t.fractions < 2 ^ 32)

-- Members of C's types hold values of these types, and a local packet has the size of its type.
pub record IsAnswers (p : Platform) : Type 0 where
  pub subseconds_range : (h : List Call) → (p.answers.utc h).subseconds < 2 ^ 32
  pub unset_time_range : (h : List Call) → IsTimestamp (p.answers.unset_time h)
  pub length-unset_packet : (h : List Call) → length (p.answers.unset_packet h) ≡ p.sntp.packet_size

-- A time stamp changes the header only. The loop is left when the run status is not APP_RUN.
pub record IsCfe (p : Platform) : Type 0 where
  pub payload-time_stamp_msg :
      (h : List Call) (t : HkTlm) → (p.cfe.time_stamp_msg h t).payload ≡ t.payload
  pub stops :
      (status : ℕ) (h : List Call)
      → status ≢ p.cfe.app_run
      → p.answers.keeps_running (Call.run_loop status ∷ h) ≡ false
  pub error_stops : p.cfe.app_error ≢ p.cfe.app_run
