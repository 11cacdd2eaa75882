-- ===== src/Tests/Request.antt =====
-- The theorems on packets, clocks, statuses and sockets, and on the handler, at concrete inputs.
use cfe_sntp.Base.{
  ◌≤◌, ℕ, ◌-◌, ◌+◌, ◌*◌, ◌/◌, ◌^◌, ◌≤◌, ◌<◌, ◌≡◌, ◌≢◌, ◌⊎◌, refl, true, false, [], ◌∷◌, Bytes,
  length, replicate, codes, take, some, none, inr, pos, negsuc, is_negative, if◌then◌else◌, arith,
}
use cfe_sntp.Platform.{Platform, Timespec, Call}
use cfe_sntp.Platform.Example.{
  playing, little_endian-IsHost, rfc_sntp-IsCoreSntp, playing-IsAnswers,
}
use cfe_sntp.Packet.{deserialize_request}
use cfe_sntp.Packet.Decode.{IsDecoded, deserialize_request-IsDecoded}
use cfe_sntp.Clock.{of_timespec, fractions_to_ms}
use cfe_sntp.Clock.Laws.{of_timespec_ms, of_timespec_precision}
use cfe_sntp.Status.{status_to_str}
use cfe_sntp.Status.Laws.{code_of, code_of-status_to_str, status_to_str_bounds}
use cfe_sntp.Socket.{init_udp_socket}
use cfe_sntp.Socket.Laws.{created, binding, opened, refused, init_udp_socket_outcomes}
use cfe_sntp.Request.{answer_request, send_response, receive_slot, transmit_slot}
use cfe_sntp.App.Replies.Times.{time_at}
use cfe_sntp.Request.Laws.{first_reading, second_reading, answer_request_status}
use cfe_sntp.Request.Reply.{IsReply}
use cfe_sntp.Request.Order.{fixed_point, SystemSteady, answer_request_order}
use cfe_sntp.Request.Wire.{rfc_reply, answer_request-rfc_reply}
use cfe_sntp.Request.Times.{
  received_at, sent_at, never_set, RepliesWith, answer_request_cfe_time,
  answer_request_broken_clock,
}
use cfe_sntp.App.Init.{pipe_name}
use cfe_sntp.App.Init.PipeName.{c_string, pipe_name-c_string}
use cfe_sntp.Tests.Data.{
  rfc_sntp-IsRfc, blank, holding, a_request, a_request-AreBytes, example, script, broken,
  broken-IsAnswers,
}

deserialize_request_example :
    (request : Bytes) × (deserialize_request example a_request.bytes (some (replicate 48 0xaa))
      ≡ (pos 0, some request))
    × IsDecoded example a_request.bytes (replicate 48 0xaa) request
deserialize_request_example =
    deserialize_request-IsDecoded example little_endian-IsHost rfc_sntp-IsCoreSntp a_request.bytes
      (replicate 48 0xaa) refl refl a_request-AreBytes

cfe_time_example :
    RepliesWith example little_endian-IsHost rfc_sntp-IsCoreSntp
      (playing-IsAnswers true script)
      holding
      refl
      a_request-AreBytes
      (pos 5)
      15
      (9 ∷ 9 ∷ [])
      16
      (received_at example holding)
      (sent_at example holding)
cfe_time_example =
    answer_request_cfe_time example little_endian-IsHost rfc_sntp-IsCoreSntp
      (playing-IsAnswers true script) holding refl a_request-AreBytes (pos 5) 15 (9 ∷ 9 ∷ []) 16
      refl

broken_clock_example :
    RepliesWith broken little_endian-IsHost rfc_sntp-IsCoreSntp broken-IsAnswers holding refl
      a_request-AreBytes
      (pos 5)
      15
      (9 ∷ 9 ∷ [])
      16
      (never_set broken holding)
      (never_set broken holding)
broken_clock_example =
    answer_request_broken_clock broken little_endian-IsHost rfc_sntp-IsCoreSntp broken-IsAnswers
      holding refl a_request-AreBytes (pos 5) 15 (9 ∷ 9 ∷ []) 16 refl (λ h. refl)

status_example :
    (bytes : Bytes) × (answer_request broken (pos 5) 15 [] 16 holding
      ≡ send_response broken (pos 5) bytes [] 16 (second_reading broken holding).1)
    × ((answer_request broken (pos 5) 15 [] 16 holding).0 ≡ (
        if is_negative (
          broken.answers.ret
            (Call.sendto (pos 5) bytes [] 16 ∷ (second_reading broken holding).1.calls))
        then pos 11
        else pos 0))
status_example = answer_request_status broken (pos 5) 15 [] 16 holding

abbrev half_past : Timespec
half_past = record { tv_sec = pos 1700000000; tv_nsec = 999999999 }

precision_example :
    ((of_timespec example half_past).fractions * 1000000000 ≤ (999999999 + 8000) * 2 ^ 32)
    × (999999999 * 2 ^ 32
        < (of_timespec example half_past).fractions * 1000000000 + 1000000 * 2 ^ 32)
precision_example = of_timespec_precision example half_past refl (omega arith)

ms_example : fractions_to_ms example (of_timespec example half_past).fractions ≡ 999999999 / 1000000
ms_example = of_timespec_ms example half_past (omega arith) (omega arith)

code_run : code_of (status_to_str (pos 17)) ≡ some 17
code_run = code_of-status_to_str 17 (omega arith)

bounds_example :
    (status_to_str (negsuc 0) ≢ none)
    × (((status_to_str (negsuc 0) ≡ some "Unknown SNTP status")
          × (code_of (status_to_str (negsuc 0)) ≡ none)
          × ((true ≡ true) ⊎ ((n : ℕ) × (negsuc 0 ≡ pos n) × (18 ≤ n))))
        ⊎ ((n : ℕ) × (negsuc 0 ≡ pos n) × (n < 18) × (code_of (status_to_str (negsuc 0)) ≡ some n)))
bounds_example = status_to_str_bounds (negsuc 0)

socket_example :
    let r = init_udp_socket broken 123 blank in
    (r.1 ≡ record blank { calls = r.1.calls })
    × (((true ≡ false)
          × (is_negative (broken.answers.ret (binding broken 123 [])) ≡ false)
          × (r.0 ≡ negsuc 0)
          × (r.1.calls ≡ opened broken 123 []))
        ⊎ ((true ≡ true)
            × (r.0 ≡ negsuc 0)
            × (r.1.calls ≡ Call.perror "Error creating socket" ∷ created broken []))
        ⊎ ((true ≡ false)
            × (is_negative (broken.answers.ret (binding broken 123 [])) ≡ true)
            × (r.0 ≡ negsuc 0)
            × (r.1.calls ≡ refused broken 123 [])))
socket_example = init_udp_socket_outcomes broken 123 blank

pipe_name_example :
    (c_string (pipe_name 8) ≡ take (8 - 1) (codes "SNTP_CMD_PIPE")) × (length (pipe_name 8) ≡ 8)
pipe_name_example = pipe_name-c_string 8 (omega arith)

rfc_reply_example :
    answer_request example (pos 5) 15 (9 ∷ 9 ∷ []) 16 holding
    ≡ send_response example
        (pos 5)
        (rfc_reply 15 a_request.bytes
          (first_reading example holding).0
          (second_reading example holding).0)
        (9 ∷ 9 ∷ [])
        16
        (second_reading example holding).1
rfc_reply_example =
    answer_request-rfc_reply example little_endian-IsHost rfc_sntp-IsCoreSntp
      (playing-IsAnswers true script) rfc_sntp-IsRfc holding refl a_request-AreBytes (pos 5) 15
      (9 ∷ 9 ∷ []) 16

-- The build with the system clock.
abbrev systemic : Platform
systemic = playing false script

systemic-SystemSteady : SystemSteady systemic holding
systemic-SystemSteady = record {
  system_build = refl;
  scale = refl;
  first_succeeds = ground arith;
  start = 1001;
  start_InEra = record { after_epoch = refl; before_wrap = omega arith; nsec_range = omega arith };
  second = λ succeeds. (
    1002,
    record { after_epoch = refl; before_wrap = omega arith; nsec_range = omega arith },
    omega arith,
  );
}

answer_request_order_example :
    (reply : Bytes) × IsReply systemic 15 a_request.bytes
      (first_reading systemic holding).0
      (second_reading systemic holding).0
      reply
    × (fixed_point (time_at systemic receive_slot reply)
        ≤ fixed_point (time_at systemic transmit_slot reply))
    × (answer_request systemic (pos 5) 15 (9 ∷ 9 ∷ []) 16 holding
        ≡ send_response systemic (pos 5) reply (9 ∷ 9 ∷ []) 16 (second_reading systemic holding).1)
answer_request_order_example =
    answer_request_order systemic little_endian-IsHost rfc_sntp-IsCoreSntp
      (playing-IsAnswers false script) holding (inr systemic-SystemSteady) refl a_request-AreBytes
      (pos 5) 15 (9 ∷ 9 ∷ []) 16
