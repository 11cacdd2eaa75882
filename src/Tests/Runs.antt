-- ===== src/Tests/Runs.antt =====
-- Runs of the app over scripted rounds.
use cfe_sntp.Tests.Data.{blank, example}
use cfe_sntp.Base.{ℕ, ◌≡◌, refl, Bool, true}
use cfe_sntp.Platform.{Platform}
use cfe_sntp.World.{World}
use cfe_sntp.App.{SntpData}
use cfe_sntp.App.Main.{
  sntp_main, start, main_loop, run_loop, round, poll_command, receive, handle, serve,
  process_sntp_request, finish,
}
use cfe_sntp.App.Init.{init, prepare, subscribe, open_socket, pipe_name}
use cfe_sntp.App.Command.{
  process_command_packet, process_ground_command, report_housekeeping, verify_cmd_length, noop,
  reset_counters,
}
use cfe_sntp.Socket.{init_udp_socket}
use cfe_sntp.Request.{answer_request, set_details, send_response}
use cfe_sntp.Clock.{get_current_sntp_time}
use cfe_sntp.Packet.{
  store_time, store_field, image, field_bytes, load_time, load_word, load_byte, encode_time,
  deserialize_request,
}

run : Platform → ℕ → World SntpData → Bool × World SntpData
unfolding sntp_main start init prepare subscribe open_socket init_udp_socket main_loop run_loop
    round poll_command receive handle serve process_sntp_request answer_request set_details
    send_response finish process_command_packet process_ground_command report_housekeeping
    verify_cmd_length noop reset_counters store_time store_field image field_bytes load_time
    load_word load_byte encode_time deserialize_request get_current_sntp_time pipe_name
run = sntp_main

run_counts : (run example 10 blank).1.state.cnts ≡ record {
  command_error_counter = 1;
  command_counter = 1;
  sntp_req_rcv = 1;
  sntp_bad_requests = 0;
  sntp_invalid_requests = 1;
}
unfolding run
run_counts = refl

run_ends : (run example 10 blank).0 ≡ true
unfolding run
run_ends = refl
