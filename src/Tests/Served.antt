-- ===== src/Tests/Served.antt =====
-- A run of the app that serves one client.
use cfe_sntp.Base.{
  ℕ, zero, suc, ◌-◌, ◌≡◌, ◌≢◌, refl, false, [], ◌∷◌, some, length, AreBytes, pos, negsuc, arith,
  take,
}
use cfe_sntp.Platform.{Platform, Timestamp}
use cfe_sntp.Platform.Example.{
  Round, nth, polls, playing, little_endian-IsHost, rfc_sntp-IsCoreSntp, playing-IsAnswers,
}
use cfe_sntp.App.{sntp_stratum}
use cfe_sntp.App.Main.{
  sntp_main, start, main_loop, run_loop, round, poll_command, receive, handle, serve,
  process_sntp_request, finish,
}
use cfe_sntp.App.Init.{init, prepare, subscribe, open_socket, pipe_name}
use cfe_sntp.App.Replies.{requests}
use cfe_sntp.App.Replies.Right.{FillsPackets}
use cfe_sntp.App.Replies.Times.{time_at}
use cfe_sntp.App.Trace.{Datagram, sends}
use cfe_sntp.Socket.{init_udp_socket}
use cfe_sntp.Request.{answer_request, set_details, send_response, receive_slot, transmit_slot}
use cfe_sntp.Request.Order.{fixed_point}
use cfe_sntp.Request.Wire.{rfc_reply}
use cfe_sntp.Clock.{get_current_sntp_time}
use cfe_sntp.Packet.{
  store_time, store_field, image, field_bytes, load_time, load_word, load_byte, encode_time,
  deserialize_request,
}
use cfe_sntp.Tools.Client.{run_sntp_query}
use cfe_sntp.Tools.Client.Query.{datagram, read_call, serialized, arrival_time, requested}
use cfe_sntp.Tools.Exchange.Run.{Answers, here, run_sntp_query_served}
use cfe_sntp.Tests.Data.{blank, rfc_sntp-IsRfc}
use cfe_sntp.Tests.Exchange.{
  rfc_request, rfc_request-AreBytes, codec_sntp-IsCoreSntp, codec_sntp-IsRfc, coding,
  coding-IsCodec, asked_at, querying,
}

-- The app reads the client's request in its first round, and then is told to stop.
abbrev asking_round : Round
asking_round = record {
  status = negsuc 0;
  message = [];
  count = pos 48;
  datagram = record { bytes = rfc_request asked_at; addr = 9 ∷ 9 ∷ []; addr_len = 16; errno = 0 };
}

abbrev serving : Platform
serving = playing false (asking_round ∷ [])

abbrev receipt : Timestamp
receipt = record { seconds = 2208989815; fractions = 1073750000 }

abbrev departure : Timestamp
departure = record { seconds = 2208989816; fractions = 1073750000 }

abbrev answer : Datagram
answer = record {
  sockfd = pos 5;
  bytes = rfc_reply sntp_stratum (rfc_request asked_at) receipt departure;
  addr = 9 ∷ 9 ∷ [];
  len = 16;
}

answered :
    let h = (sntp_main serving 10 blank).1.calls in
    Answers (rfc_request asked_at) answer (requests serving h) (sends h)
unfolding sntp_main start init prepare subscribe open_socket init_udp_socket main_loop run_loop
    round poll_command receive handle serve process_sntp_request answer_request set_details
    send_response finish store_time store_field image field_bytes load_time load_word load_byte
    encode_time deserialize_request get_current_sntp_time pipe_name
answered = here

serving_fills :
    (n : ℕ)
    → (nth (asking_round ∷ []) n).count ≡ pos 48
    → (length (nth (asking_round ∷ []) n).datagram.bytes ≡ 48)
      × AreBytes (nth (asking_round ∷ []) n).datagram.bytes
serving_fills zero whole = (refl, rfc_request-AreBytes asked_at)
serving_fills (suc n) whole = absurd (ground arith)

serving-FillsPackets : FillsPackets serving
serving-FillsPackets fd size h whole = serving_fills (polls h - 1) whole

-- The client, to whom the answer comes back.
abbrev served_client : Platform
served_client = coding (record {
  status = pos 0;
  message = [];
  count = pos 48;
  datagram = record { bytes = answer.bytes; addr = 1 ∷ []; addr_len = 16; errno = 0 };
})

delivered : rfc_request asked_at ≡ take 48 (serialized served_client querying).2
unfolding get_current_sntp_time
delivered = refl

is_asked : fixed_point (serialized served_client querying).1 ≢ 0
unfolding get_current_sntp_time
is_asked = ground arith

is_received : fixed_point (time_at serving receive_slot answer.bytes) ≢ 0
unfolding field_bytes
is_received = ground arith

is_sent : fixed_point (time_at serving transmit_slot answer.bytes) ≢ 0
unfolding field_bytes
is_sent = ground arith

is_arrival : fixed_point (arrival_time served_client (requested served_client querying)) ≢ 0
unfolding get_current_sntp_time
is_arrival = ground arith

comes :
    served_client.answers.ret (read_call served_client (requested served_client querying)) ≡ pos 48
unfolding get_current_sntp_time
comes = refl

back : (datagram served_client (requested served_client querying)).bytes ≡ answer.bytes
unfolding get_current_sntp_time
back = refl

run_sntp_query_served_example : (run_sntp_query served_client querying).0 ≡ some (pos 0)
run_sntp_query_served_example =
    run_sntp_query_served served_client serving codec_sntp-IsRfc rfc_sntp-IsRfc
      codec_sntp-IsCoreSntp (coding-IsCodec _) little_endian-IsHost rfc_sntp-IsCoreSntp
      (playing-IsAnswers false (asking_round ∷ [])) serving-FillsPackets 10 blank refl refl querying
      (rfc_request asked_at) answer refl refl delivered answered comes back is_asked is_received
      is_sent is_arrival
