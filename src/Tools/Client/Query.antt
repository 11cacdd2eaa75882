-- ===== src/Tools/Client/Query.antt =====
-- The standalone client: one query.
use mathlib.Core.Logic.{◌↔◌}
use cfe_sntp.Base.{◌≡◌, ◌≢◌, ◌⊎◌, List, [], ◌∷◌, none, Bytes, take, write, ℤ, pos, ==ℤ_iff, arith}
use cfe_sntp.Platform.{Platform, Timestamp, ResponseData, Call, Received}
use cfe_sntp.World.{World}
use cfe_sntp.Clock.{get_current_sntp_time}
use cfe_sntp.App.Trace.{sends}
use cfe_sntp.App.Trace.Request.{get_current_sntp_time-Silent}
use cfe_sntp.Clock.Laws.{get_current_sntp_time_frame}
use cfe_sntp.Tools.Client.{ClientState, report, await_response, run_sntp_query}

module _ (p : Platform) where
  abbrev pub read_call : World ClientState → List Call
  read_call w = Call.recvfrom w.state.sockfd p.sntp.packet_base_size ∷ w.calls

  abbrev pub datagram : World ClientState → Received
  datagram w = p.answers.received (read_call w)

  -- The world in which the reading of the clock begins, and that reading.
  abbrev pub arrived : World ClientState → World ClientState
  arrived w = record w {
    net_buf = write 0 (datagram w).bytes w.net_buf;
    calls = Call.os_printf "Received NTP response\n" [] ∷ read_call w;
  }

  abbrev pub arrival_time : World ClientState → Timestamp
  arrival_time w = (get_current_sntp_time p (p.answers.unset_time (arrived w).calls) (arrived w)).0

  -- The outcome of the library on what was received.
  abbrev pub reading : World ClientState → Timestamp × World ClientState
  reading w = get_current_sntp_time p (p.answers.unset_time (arrived w).calls) (arrived w)

  abbrev pub decoded : Timestamp → World ClientState → ℤ × ResponseData
  decoded time w =
      p.sntp.deserialize_response time (reading w).0 (reading w).1.net_buf p.sntp.packet_base_size

  pub report_status :
      (status : ℤ) (response : ResponseData) (w : World ClientState)
      → ((report p status response w).0 ≡ status)
        × (sends (report p status response w).1.calls ≡ sends w.calls)
  unfolding report
  report_status status response w = ground arith

  -- The client takes a reply for a success exactly if it has the length of a packet and the library
  -- accepts the bytes that were received, for the request's time and the time of arrival. The
  -- statuses of a network failure and of a missing response must differ from that of a success, and
  -- the length of a packet from 0.
  pub await_response_success :
      (time : Timestamp) (w : World ClientState)
      → p.sntp.error_network_failure ≢ p.sntp.success
      → p.sntp.no_response_received ≢ p.sntp.success
      → p.sntp.packet_base_size ≢ 0
      → ((await_response p time w).0 ≡ p.sntp.success) ↔ (
          (p.answers.ret (read_call w) ≡ pos p.sntp.packet_base_size)
          × ((p.sntp.deserialize_response time
                (arrival_time w)
                (write 0 (datagram w).bytes w.net_buf)
                p.sntp.packet_base_size).0
              ≡ p.sntp.success))
  unfolding await_response
  await_response_success time w network silent full = ground (
    arith,
    get_current_sntp_time_frame p (p.answers.unset_time (arrived w).calls) (arrived w),
    report_status (decoded time w).0 (decoded time w).1 (reading w).1,
    ==ℤ_iff (p.answers.ret (read_call w)) (pos p.sntp.packet_base_size),
    ==ℤ_iff (p.answers.ret (read_call w)) (pos 0),
  )

  sends-await_response :
      (time : Timestamp) (w : World ClientState)
      → sends (await_response p time w).1.calls ≡ sends w.calls
  unfolding await_response
  sends-await_response time w =
      let silent =
        get_current_sntp_time-Silent p (p.answers.unset_time (arrived w).calls) (arrived w) in
      ground (
        arith,
        silent.same_sends,
        report_status (decoded time w).0 (decoded time w).1 (reading w).1,
      )

  -- The reading of the clock that the request carries.
  abbrev pub request_time : World ClientState → Timestamp × World ClientState
  request_time w =
      let v = record w { calls = Call.random ∷ w.calls } in
      get_current_sntp_time p (p.answers.unset_time v.calls) v

  abbrev pub serialized : World ClientState → ℤ × Timestamp × Bytes
  serialized w =
      p.sntp.serialize_request (request_time w).0 (p.answers.random (Call.random ∷ w.calls))
        w.net_buf p.sntp.packet_base_size

  abbrev pub request_call : World ClientState → Call
  request_call w =
      Call.sendto w.state.sockfd (take p.sntp.packet_base_size (serialized w).2) w.state.server_addr
        p.sockaddr_size

  -- The world in which the answer is awaited.
  abbrev pub requested : World ClientState → World ClientState
  requested w = record w {
    net_buf = (serialized w).2;
    calls = Call.os_printf "NTP Request Sent\n" [] ∷ request_call w ∷ (request_time w).1.calls;
  }

  -- A query sends one datagram to the server: what the library made of the time and a random number.
  -- It sends none only where the library refuses, and then the assertion ends the process.
  pub run_sntp_query-sends :
      (w : World ClientState)
      → let r = run_sntp_query p w in
        (((serialized w).0 ≡ p.sntp.success)
          × (r.0 ≢ none)
          × (sends r.1.calls
              ≡ record {
                sockfd = w.state.sockfd;
                bytes = take p.sntp.packet_base_size (serialized w).2;
                addr = w.state.server_addr;
                len = p.sockaddr_size;
              }
                ∷ sends w.calls))
        ⊎ (((serialized w).0 ≢ p.sntp.success) × (r.0 ≡ none) × (sends r.1.calls ≡ sends w.calls))
  unfolding run_sntp_query
  run_sntp_query-sends w =
      let v = record w { calls = Call.random ∷ w.calls } in
      let silent = get_current_sntp_time-Silent p (p.answers.unset_time v.calls) v in
      ground (
        arith,
        silent.same_sends,
        get_current_sntp_time_frame p (p.answers.unset_time v.calls) v,
        ==ℤ_iff (serialized w).0 p.sntp.success,
        sends-await_response (serialized w).1 (requested w),
      )
