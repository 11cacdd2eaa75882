-- ===== src/Tests/App.antt =====
-- The theorems on the app at concrete inputs.
use cfe_sntp.Base.{
  ◌<◌, ℕ, zero, suc, ◌-◌, ◌≡◌, ◌≢◌, ◌⊎◌, inl, refl, true, false, [], ◌∷◌, List, AreBytes, length,
  pos, arith,
}
use cfe_sntp.Telemetry.{noop_cc, reset_counters_cc, zero_payload}
use cfe_sntp.Platform.{Call, Address}
use cfe_sntp.Platform.Laws.{IsCfe}
use cfe_sntp.Platform.Example.{
  nth, polls, little_endian-IsHost, rfc_sntp-IsCoreSntp, playing-IsAnswers, playing-IsCfe,
}
use cfe_sntp.World.{World}
use cfe_sntp.App.{SntpData, sntp_stratum, cmd_mid, send_hk_mid}
use cfe_sntp.App.Command.{
  process_command_packet, process_ground_command, verify_cmd_length, noop, count_command,
  count_error,
}
use cfe_sntp.App.Command.Laws.{
  noop_event, reset_event, length_event, code_event, msg_id_event, Becomes,
  process_ground_command_fates, process_command_packet_routes,
}
use cfe_sntp.App.Init.{init, prepare, subscribe, open_socket}
use cfe_sntp.Socket.{init_udp_socket}
use cfe_sntp.App.Init.Laws.{Outcome, init-Outcome}
use cfe_sntp.App.Main.{Client, poll_command, round, sntp_main}
use cfe_sntp.App.Main.Laws.{Answered, read_call, datagram, round_request, round_other}
use cfe_sntp.App.Main.Exit.{StopsBy, entered, failed_run, failed_init_exits, sntp_main_ends}
use cfe_sntp.App.Trace.{sends, tests}
use cfe_sntp.App.Events.{AllKnown}
use cfe_sntp.App.Events.Laws.{sntp_main-IsKnown}
use cfe_sntp.App.Phases.{gone, may_test, follow}
use cfe_sntp.App.Phases.Laws.{sntp_main-follow}
use cfe_sntp.App.Rounds
use cfe_sntp.App.Rounds.{reads}
use cfe_sntp.App.Rounds.Laws.{sntp_main_rounds}
use cfe_sntp.App.Replies.{IsPaired}
use cfe_sntp.App.Replies.Right.{IsRight, FillsPackets, sntp_main-IsRight}
use cfe_sntp.App.Replies.Times.{stamps, times}
use cfe_sntp.App.Replies.Times.Main.{sntp_main-times}
use cfe_sntp.Socket.Life.{ready, socket_after, AllOn, NoSocket}
use cfe_sntp.App.Main.Socket.{sntp_main-AllOn}
use cfe_sntp.App.Replies.Main.{sntp_main-IsPaired}
use cfe_sntp.App.Tally.{IsExact}
use cfe_sntp.App.Tally.Main.{sntp_main-IsExact}
use cfe_sntp.Tests.Data.{a_request-AreBytes, blank, short_msg, hk_msg, script, example, broken}

-- The locals of the loop before the first datagram.
abbrev newcomer : Client
newcomer = record { addr = 0 ∷ 0 ∷ []; len = 16 }

-- The world of the second round: one poll was made.
abbrev second_round : World SntpData
second_round = record blank { calls = Call.poll_buffer 0 ∷ [] }

first_poll :
    (poll_command example blank).1.calls
    ≡ noop_event
      ∷ Call.os_printf "SNTP CMD Received\n" []
      ∷ Call.perf_log_entry 93
      ∷ Call.poll_buffer 0
      ∷ Call.perf_log_exit 93
      ∷ []
unfolding poll_command process_command_packet process_ground_command verify_cmd_length noop
first_poll = refl

first_read : example.answers.ret (read_call example (poll_command example blank).1) ≡ pos 48
unfolding poll_command process_command_packet process_ground_command verify_cmd_length noop
first_read = refl

first_size : length (datagram example (poll_command example blank).1).bytes ≡ 48
unfolding poll_command process_command_packet process_ground_command verify_cmd_length noop
first_size = refl

first_bytes : AreBytes (datagram example (poll_command example blank).1).bytes
unfolding poll_command process_command_packet process_ground_command verify_cmd_length noop
first_bytes = omega arith

round_request_run :
    Answered example little_endian-IsHost rfc_sntp-IsCoreSntp
      (playing-IsAnswers true script)
      newcomer
      (poll_command example blank).1
      (round example newcomer blank).1
    × (sends (poll_command example blank).1.calls ≡ sends blank.calls)
    × ((poll_command example blank).1.state.sockfd ≡ pos 0)
round_request_run =
    round_request example little_endian-IsHost rfc_sntp-IsCoreSntp (playing-IsAnswers true script)
      newcomer blank refl first_read first_size first_bytes

sntp_main-IsExact_example : IsExact example (sntp_main example 10 blank).1
sntp_main-IsExact_example =
    sntp_main-IsExact example (playing-IsCfe true script) rfc_sntp-IsCoreSntp 10 blank refl

second_read : example.answers.ret (read_call example (poll_command example second_round).1) ≢ pos 48
unfolding poll_command process_command_packet process_ground_command verify_cmd_length noop
second_read = ground arith

round_other_run : sends (round example newcomer second_round).1.calls ≡ sends second_round.calls
round_other_run = round_other example newcomer second_round second_read

init-Outcome_example : Outcome example blank (init example blank).0 (init example blank).1
init-Outcome_example = init-Outcome example blank

process_ground_command_example :
    let w' = (process_ground_command example short_msg blank).1 in
    ((1 ≡ noop_cc)
      × (length short_msg ≡ 8)
      × Becomes example blank (count_command zero_payload) noop_event w')
    ⊎ ((1 ≡ reset_counters_cc)
        × (length short_msg ≡ 8)
        × Becomes example blank zero_payload reset_event w')
    ⊎ (((1 ≡ noop_cc) ⊎ (1 ≡ reset_counters_cc))
        × (length short_msg ≢ 8)
        × Becomes example blank (count_error zero_payload) (length_event example short_msg 8) w')
    ⊎ ((1 ≢ noop_cc)
        × (1 ≢ reset_counters_cc)
        × Becomes example blank zero_payload (code_event 1) w')
process_ground_command_example = process_ground_command_fates example short_msg blank

process_command_packet_example :
    let r = process_command_packet example hk_msg blank in
    ((0x1831 ≡ cmd_mid example) × (r ≡ process_ground_command example hk_msg blank))
    ⊎ ((0x1831 ≡ send_hk_mid example)
        × (r.1.calls
            ≡ Call.transmit_msg Address.hk_tlm true r.1.state.hk_tlm
              ∷ Call.time_stamp_msg Address.hk_tlm
              ∷ [])
        × (r.1.state.hk_tlm.payload ≡ zero_payload)
        × (r.1.state ≡ record (blank.state) { hk_tlm = r.1.state.hk_tlm }))
    ⊎ ((0x1831 ≢ cmd_mid example)
        × (0x1831 ≢ send_hk_mid example)
        × (r.1.state ≡ blank.state)
        × (r.1.calls ≡ msg_id_event 0x1831 ∷ []))
process_command_packet_example =
    process_command_packet_routes example (playing-IsCfe true script) hk_msg blank

broken-IsCfe : IsCfe broken
broken-IsCfe = record {
  payload-time_stamp_msg = λ h t. refl;
  stops = λ status h other. ground arith;
  error_stops = omega arith;
}

init-broken : (init broken (entered broken blank)).0 ≢ pos 0
unfolding init prepare
init-broken = ground arith

failed_init_example :
    ((sntp_main broken 1 blank).0 ≡ true)
    × ((sntp_main broken 1 blank).1.calls
        ≡ failed_run broken (init broken (entered broken blank)).1.calls)
failed_init_example = failed_init_exits broken broken-IsCfe 0 blank init-broken

pub example-StopsBy : StopsBy example 3
example-StopsBy status h reached = ground arith

sntp_main_ends_run :
    ((sntp_main example 10 blank).0 ≡ true)
    × (rest : List Call) × ((sntp_main example 10 blank).1.calls
        ≡ Call.exit_app (sntp_main example 10 blank).1.state.run_status ∷ rest)
sntp_main_ends_run = sntp_main_ends example 3 10 blank example-StopsBy (omega arith)

sntp_main-IsPaired_example : IsPaired example (sntp_main example 10 blank).1
sntp_main-IsPaired_example = sntp_main-IsPaired example 10 blank refl

rounds_fill :
    (n : ℕ)
    → (nth script n).count ≡ pos 48
    → (length (nth script n).datagram.bytes ≡ 48) × AreBytes (nth script n).datagram.bytes
rounds_fill zero whole = (refl, a_request-AreBytes)
rounds_fill (suc zero) whole = absurd (ground arith)
rounds_fill (suc (suc zero)) whole = absurd (ground arith)
rounds_fill (suc (suc (suc n))) whole = absurd (ground arith)

pub example-FillsPackets : FillsPackets example
example-FillsPackets fd size h whole = rounds_fill (polls h - 1) whole

sntp_main-IsRight_run : IsRight example sntp_stratum (sntp_main example 10 blank).1
sntp_main-IsRight_run =
    sntp_main-IsRight example little_endian-IsHost rfc_sntp-IsCoreSntp
      (playing-IsAnswers true script) example-FillsPackets 10 blank refl refl

sntp_main-IsKnown_run : AllKnown (sntp_main example 10 blank).1.calls
sntp_main-IsKnown_run = sntp_main-IsKnown example 10 blank refl

-- The script grants its three rounds.
example-Grants :
    (h : List Call)
    → tests h < 3
    → let asked = Call.run_loop 1 ∷ h in
      (example.answers.keeps_running asked ≡ true) × (example.answers.run_status asked ≡ 1)
example-Grants h early = ground arith

init-example : (init example (entered example blank)).0 ≡ pos 0
unfolding init prepare subscribe open_socket init_udp_socket
init-example = refl

sntp_main_rounds_example :
    (Rounds.polls (sntp_main example 3 blank).1.calls ≡ 3)
    × (reads (sntp_main example 3 blank).1.calls ≡ 3)
sntp_main_rounds_example = sntp_main_rounds example 3 blank refl init-example example-Grants

sntp_main-follow_example :
    let r = sntp_main example 10 blank in
    ((r.0 ≡ true) × (follow r.1.calls ≡ gone))
    ⊎ ((r.0 ≡ false) × (may_test (follow r.1.calls) ≡ true))
sntp_main-follow_example = sntp_main-follow example 10 blank refl

sntp_main-AllOn_example :
    let r = (sntp_main example 10 blank).1 in
    AllOn example ready r.calls
    × ((((init example (entered example blank)).0 ≢ pos 0) × NoSocket example r.calls)
        ⊎ (((init example (entered example blank)).0 ≡ pos 0)
            × (socket_after example r.calls ≡ ready r.state.sockfd)))
sntp_main-AllOn_example =
    sntp_main-AllOn example (playing-IsCfe true script) (ground arith) 10 blank refl

sntp_main-times_example :
    let h = (sntp_main example 10 blank).1.calls in times example (sends h) ≡ stamps example h
sntp_main-times_example =
    sntp_main-times example little_endian-IsHost rfc_sntp-IsCoreSntp (playing-IsAnswers true script)
      example-FillsPackets (inl refl) 10 blank refl refl
