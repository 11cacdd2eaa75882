-- ===== src/Tests/Exchange.antt =====
-- A query and its answer, with a small codec.
use cfe_sntp.Base.{
  ℕ, ◌%◌, ◌≡◌, ◌≢◌, refl, Bool, true, false, ◌&&◌, not, ◌==◌, [], ◌∷◌, ◌++◌, some, Bytes, replicate,
  slice, take, be32, from_be32, AreBytes, pos, if◌then◌else◌, arith,
}
use cfe_sntp.Platform.{Platform, Timestamp, CoreSntp}
use cfe_sntp.Platform.Laws.{IsCoreSntp}
use cfe_sntp.Platform.Example.{
  Round, playing, little_endian-IsHost, rfc_sntp, rfc_sntp-IsCoreSntp, playing-IsAnswers,
}
use cfe_sntp.World.{World}
use cfe_sntp.Packet.{
  field_bytes, store_time, store_field, image, load_time, load_word, load_byte, encode_time,
  deserialize_request,
}
use cfe_sntp.Clock.{get_current_sntp_time}
use cfe_sntp.Request.{answer_request, set_details, send_response}
use cfe_sntp.Request.Wire.{IsRfc, rfc_reply}
use cfe_sntp.App.{SntpData}
use cfe_sntp.App.Trace.{Datagram, sends}
use cfe_sntp.Request.Laws.{first_reading, second_reading}
use cfe_sntp.Request.Order.{fixed_point}
use cfe_sntp.Tools.Client.Query.{datagram, read_call, serialized, arrival_time, requested}
use cfe_sntp.Tools.Client.{ClientState, default_args, run_sntp_query}
use cfe_sntp.Tools.Exchange.{run_sntp_query_answered}
use cfe_sntp.Tools.Exchange.Codec.{IsCodec, IsAcceptable}
use cfe_sntp.Tests.Data.{blank, rfc_sntp-IsRfc}

abbrev pub rfc_request : Timestamp → Bytes
rfc_request t = 0x23 ∷ replicate 39 0 ++ (be32 t.seconds ++ be32 t.fractions)

abbrev first_byte : Bytes → ℕ
first_byte [] = 0
first_byte (b ∷ bs) = b

abbrev same_word : ℕ → ℕ → Bytes → Bool
same_word x off buf = from_be32 (slice off 4 buf) == from_be32 (be32 x)

-- The tests that the library makes of a response.
abbrev is_response : Timestamp → Bytes → Bool
is_response asked buf =
    (first_byte (slice 0 1 buf) % 8 == 4)
    && (not (first_byte (slice 1 1 buf) == 0)
        && (same_word asked.seconds 24 buf && same_word asked.fractions 28 buf))

abbrev pub codec_sntp : CoreSntp
codec_sntp = record rfc_sntp {
  serialize_request = λ time number buf size. (pos 0, time, rfc_request time);
  deserialize_response = λ asked arrival buf size. (
    (if is_response asked buf then pos 0 else pos 7),
    record { server_time = arrival; clock_offset_ms = pos 0 },
  );
}

pub codec_sntp-IsCoreSntp : IsCoreSntp codec_sntp
codec_sntp-IsCoreSntp = record {
  fits = rfc_sntp-IsCoreSntp.fits;
  apart = rfc_sntp-IsCoreSntp.apart;
  byte_leap = rfc_sntp-IsCoreSntp.byte_leap;
  byte_stratum = rfc_sntp-IsCoreSntp.byte_stratum;
  word_ref_id = rfc_sntp-IsCoreSntp.word_ref_id;
  word_origin_seconds = rfc_sntp-IsCoreSntp.word_origin_seconds;
  word_origin_fractions = rfc_sntp-IsCoreSntp.word_origin_fractions;
  word_receive_seconds = rfc_sntp-IsCoreSntp.word_receive_seconds;
  word_receive_fractions = rfc_sntp-IsCoreSntp.word_receive_fractions;
  word_transmit_seconds = rfc_sntp-IsCoreSntp.word_transmit_seconds;
  word_transmit_fractions = rfc_sntp-IsCoreSntp.word_transmit_fractions;
  failure_differs = rfc_sntp-IsCoreSntp.failure_differs;
  kiss_range = rfc_sntp-IsCoreSntp.kiss_range;
  base_size = rfc_sntp-IsCoreSntp.base_size;
}

pub codec_sntp-IsRfc : IsRfc codec_sntp
codec_sntp-IsRfc = record {
  offsets = λ f. refl;
  widths = λ f. refl;
  size = refl;
  server = refl;
  number = refl;
  position = refl;
  no_kiss = refl;
}

pub rfc_request-AreBytes : (t : Timestamp) → AreBytes (rfc_request t)
rfc_request-AreBytes t = omega arith

module _ (round : Round) where
  abbrev pub coding : Platform
  coding = record (playing false (round ∷ [])) { sntp = codec_sntp }

  accepted :
      (asked : Timestamp) (buf : Bytes)
      → IsAcceptable coding asked buf
      → is_response asked buf ≡ true
  unfolding field_bytes
  accepted asked buf right = ground (
    arith, right.mode_byte, right.is_server, right.level_byte, right.no_kiss, right.asked_seconds,
    right.asked_fractions,
  )

  pub coding-IsCodec : IsCodec coding
  unfolding field_bytes
  coding-IsCodec = record {
    serializes = λ time number buf size. (refl, refl, rfc_request-AreBytes time, refl, refl);
    accepts = λ asked arrival buf is_asked is_arrival right. rw (accepted asked buf right) refl;
  }

-- The client asks at 1002 s of its clock, 250 ms; the server is asked at its 1001 s.
abbrev pub asked_at : Timestamp
asked_at = record { seconds = 2208989802; fractions = 1073750000 }

abbrev first_time : Timestamp
first_time = record { seconds = 2208989801; fractions = 1073750000 }

abbrev second_time : Timestamp
second_time = record { seconds = 2208989802; fractions = 1073750000 }

abbrev the_reply : Datagram
the_reply = record {
  sockfd = pos 5;
  bytes = rfc_reply 15 (rfc_request asked_at) first_time second_time;
  addr = 9 ∷ 9 ∷ [];
  len = 16;
}

abbrev delivering : Round
delivering = record {
  status = pos 0;
  message = [];
  count = pos 48;
  datagram = record { bytes = the_reply.bytes; addr = 1 ∷ []; addr_len = 16; errno = 0 };
}

abbrev client : Platform
client = coding delivering

abbrev server : Platform
server = playing false []

abbrev pub querying : World ClientState
querying = record {
  state = record { sockfd = pos 6; server_addr = 2 ∷ 0 ∷ []; client_args = default_args };
  net_buf = replicate 48 0;
  calls = [];
}

abbrev asked : World SntpData
asked = record blank { net_buf = rfc_request asked_at }

reply_sent : sends (answer_request server (pos 5) 15 (9 ∷ 9 ∷ []) 16 asked).1.calls ≡ the_reply ∷ []
unfolding answer_request set_details send_response store_time store_field image field_bytes
    load_time load_word load_byte encode_time deserialize_request get_current_sntp_time
reply_sent = refl

delivered : asked.net_buf ≡ take 48 (serialized client querying).2
unfolding get_current_sntp_time
delivered = refl

is_asked : fixed_point (serialized client querying).1 ≢ 0
unfolding get_current_sntp_time
is_asked = ground arith

is_received : fixed_point (first_reading server asked).0 ≢ 0
unfolding get_current_sntp_time
is_received = ground arith

is_sent : fixed_point (second_reading server asked).0 ≢ 0
unfolding get_current_sntp_time
is_sent = ground arith

is_arrival : fixed_point (arrival_time client (requested client querying)) ≢ 0
unfolding get_current_sntp_time
is_arrival = ground arith

comes : client.answers.ret (read_call client (requested client querying)) ≡ pos 48
unfolding get_current_sntp_time
comes = refl

back : (datagram client (requested client querying)).bytes ≡ the_reply.bytes
unfolding get_current_sntp_time
back = refl

run_sntp_query_answered_example : (run_sntp_query client querying).0 ≡ some (pos 0)
run_sntp_query_answered_example =
    run_sntp_query_answered client server codec_sntp-IsRfc rfc_sntp-IsRfc codec_sntp-IsCoreSntp
      (coding-IsCodec delivering) little_endian-IsHost rfc_sntp-IsCoreSntp
      (playing-IsAnswers false []) querying asked (pos 5) 15 (9 ∷ 9 ∷ []) 16 the_reply refl refl
      delivered reply_sent comes back (omega arith) is_asked is_received is_sent is_arrival
