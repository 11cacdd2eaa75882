-- ===== src/Tests/Tools.antt =====
-- The theorems on the standalone tools at concrete inputs.
use Prim.Native.String.{String}
use mathlib.Core.Logic.{◌↔◌}
use cfe_sntp.Base.{
  ℕ, zero, suc, ◌-◌, length, AreBytes, true, false, is_negative, ◌≡◌, ◌≢◌, ◌⊎◌, refl, [], ◌∷◌,
  Bytes, replicate, none, pos, arith, take, write,
}
use cfe_sntp.Platform.{Call, Platform, Timestamp}
use cfe_sntp.Clock.{get_current_sntp_time}
use cfe_sntp.Platform.Example.{
  Round, nth, polls, playing, little_endian-IsHost, rfc_sntp-IsCoreSntp, playing-IsAnswers,
}
use cfe_sntp.World.{World}
use cfe_sntp.Request.Laws.{first_reading, second_reading}
use cfe_sntp.Request.Reply.{IsReply}
use cfe_sntp.App.Replies.{IsPaired}
use cfe_sntp.App.Trace.{sends}
use cfe_sntp.Tools.{parsed, overflow}
use cfe_sntp.Tools.Server as Server
use cfe_sntp.Tools.Server.Laws as Served
use cfe_sntp.Tools.Server.Runs as Serving
use cfe_sntp.Tools.Server.Socket as Bound
use cfe_sntp.Tools.Server.Right as Replying
use cfe_sntp.App.Replies.Right.{IsRight, FillsPackets}
use cfe_sntp.Tools.Client.Session.{network, Session, client_main-Session}
use cfe_sntp.Socket.Life.{bound, socket_after, AllOn, NoSocket}
use cfe_sntp.Tools.Client as Client
use cfe_sntp.Tools.Client.Laws as Asked
use cfe_sntp.Tools.Client.Query as Query
use cfe_sntp.Tools.Client.Connect as Connect
use cfe_sntp.Tests.Data.{a_request}

abbrev whole_round : Round
whole_round = record { status = pos 0; message = []; count = pos 48; datagram = a_request }

-- Every read gives a request, and the reads of the tools come before any poll.
abbrev asking : Platform
asking = playing false (whole_round ∷ [])

abbrev waiting : World Server.ServerState
waiting = record {
  state = record { sockfd = pos 5; server_args = Server.default_args };
  net_buf = replicate 48 0;
  calls = [];
}

run_sntp_server_request_run :
    (reply : Bytes) × IsReply asking 15 a_request.bytes
      (first_reading asking (Served.asked asking waiting)).0
      (second_reading asking (Served.asked asking waiting)).0
      reply
    × (sends (Server.run_sntp_server asking waiting).1.calls
        ≡ record { sockfd = pos 5; bytes = reply; addr = 9 ∷ 9 ∷ []; len = 16 } ∷ [])
run_sntp_server_request_run =
    Served.run_sntp_server_request asking little_endian-IsHost rfc_sntp-IsCoreSntp
      (playing-IsAnswers false (whole_round ∷ [])) waiting refl refl refl (omega arith)

-- A platform whose reads give eleven bytes.
abbrev short_round : Round
short_round = record { status = pos 0; message = []; count = pos 11; datagram = a_request }

abbrev interrupting : Platform
interrupting = playing false (short_round ∷ [])

run_sntp_server_other_run :
    let r = Server.run_sntp_server interrupting waiting in
    (sends r.1.calls ≡ []) × (r.0 ≢ pos 0) × (r.1.state ≡ waiting.state)
run_sntp_server_other_run =
    Served.run_sntp_server_other interrupting waiting (ground arith) (ground arith) (ground arith)

parse_server_args_example :
    Server.parse_server_args asking ("--port" ∷ "65659" ∷ "-s" ∷ "2" ∷ []) Server.default_args
    ≡ parsed (record { port = 123; stratum = 2 })
parse_server_args_example =
    Served.parse_server_args-command_line asking
      (Served.port_option false "65659" ∷ Served.stratum_option true "2" ∷ []) Server.default_args

abbrev querying : World Client.ClientState
querying = record {
  state = record { sockfd = pos 5; server_addr = 2 ∷ 0 ∷ []; client_args = Client.default_args };
  net_buf = replicate 48 0;
  calls = [];
}

run_sntp_query_example :
    let r = Client.run_sntp_query asking querying in
    (((Query.serialized asking querying).0 ≡ pos 0)
      × (r.0 ≢ none)
      × (sends r.1.calls
          ≡ record {
            sockfd = pos 5;
            bytes = take 48 (Query.serialized asking querying).2;
            addr = 2 ∷ 0 ∷ [];
            len = 16;
          }
            ∷ []))
    ⊎ (((Query.serialized asking querying).0 ≢ pos 0) × (r.0 ≡ none) × (sends r.1.calls ≡ []))
run_sntp_query_example = Query.run_sntp_query-sends asking querying

abbrev asked_at : Timestamp
asked_at = record { seconds = 5; fractions = 6 }

accepted : (Client.await_response asking asked_at querying).0 ≡ pos 0
unfolding Client.await_response Client.report get_current_sntp_time
accepted = refl

await_response_example : ((Client.await_response asking asked_at querying).0 ≡ pos 0) ↔ (
    (asking.answers.ret (Query.read_call asking querying) ≡ pos 48)
    × ((asking.sntp.deserialize_response asked_at
          (Query.arrival_time asking querying)
          (write 0 a_request.bytes querying.net_buf)
          48).0
        ≡ pos 0))
await_response_example =
    Query.await_response_success asking asked_at querying (ground arith) (ground arith)
      (ground arith)

parse_client_args_example :
    Client.parse_client_args asking ("-ip" ∷ "10.0.0.1" ∷ "-cp" ∷ "9123" ∷ []) Client.default_args
    ≡ parsed (record (Client.default_args) { server_ip = "10.0.0.1"; client_port = 9123 })
parse_client_args_example =
    Asked.parse_client_args-command_line asking
      (Asked.ip_option true "10.0.0.1" ∷ Asked.client_port_option true "9123" ∷ [])
      Client.default_args (omega arith, (tt, tt))

-- A name of 64 bytes.
abbrev long_name : String
long_name = "aaaaaaaaaaaaaaaabbbbbbbbbbbbbbbbccccccccccccccccdddddddddddddddd"

parse_client_args_overflow_example :
    Client.parse_client_args asking
      ("-p" ∷ "123" ∷ "-s" ∷ long_name ∷ "-cp" ∷ [])
      Client.default_args
    ≡ overflow
parse_client_args_overflow_example =
    Asked.parse_client_args_overflow asking (Asked.port_option true "123" ∷ [])
      (Asked.server_option true long_name) ("-cp" ∷ []) Client.default_args (tt, tt) (ground arith)

init_client_socket_example :
    let r = Client.init_client_socket asking querying in
    let h = Connect.addressed asking querying in
    let bound = Connect.binding asking querying in
    let zero_port : ℕ = 0 in
    ((r.0 ≡ true)
      × (is_negative (pos 5) ≡ false)
      × (r.1.state ≡ Connect.connected asking querying)
      × (((zero_port ≡ 0) × (r.1.calls ≡ h))
          ⊎ ((zero_port ≢ 0)
              × (is_negative (asking.answers.ret bound) ≡ false)
              × (r.1.calls ≡ bound))))
    ⊎ ((r.0 ≡ false)
        × (is_negative (pos 5) ≡ true)
        × (r.1.calls
            ≡ Call.exit_process 1 ∷ Call.perror "Error creating socket" ∷ Call.socket ∷ []))
    ⊎ ((r.0 ≡ false)
        × (is_negative (pos 5) ≡ false)
        × (zero_port ≢ 0)
        × (is_negative (asking.answers.ret bound) ≡ true)
        × (r.1.calls
            ≡ Call.exit_process 1
              ∷ Call.close (pos 5)
              ∷ Call.perror "Error binding to client port"
              ∷ bound))
init_client_socket_example = Connect.init_client_socket_outcomes asking querying

server_main-IsPaired_example :
    IsPaired asking (Server.server_main asking ("-p" ∷ "9123" ∷ []) 3 waiting).1
server_main-IsPaired_example =
    Serving.server_main-IsPaired asking rfc_sntp-IsCoreSntp ("-p" ∷ "9123" ∷ []) 3 waiting refl

asking_fills :
    (n : ℕ)
    → (nth (whole_round ∷ []) n).count ≡ pos 48
    → (length (nth (whole_round ∷ []) n).datagram.bytes ≡ 48)
      × AreBytes (nth (whole_round ∷ []) n).datagram.bytes
asking_fills zero whole = (refl, omega arith)
asking_fills (suc n) whole = absurd (ground arith)

asking-FillsPackets : FillsPackets asking
asking-FillsPackets fd size h whole = asking_fills (polls h - 1) whole

server_main-IsRight_example :
    let r = (Server.server_main asking ("-p" ∷ "9123" ∷ []) 3 waiting).1 in
    IsRight asking r.state.server_args.stratum r
server_main-IsRight_example =
    Replying.server_main-IsRight asking little_endian-IsHost rfc_sntp-IsCoreSntp
      (playing-IsAnswers false (whole_round ∷ [])) asking-FillsPackets ("-p" ∷ "9123" ∷ []) 3
      waiting refl refl

client_main-Session_example :
    let r = Client.client_main asking ("-cp" ∷ "9124" ∷ []) querying in
    Session asking r.0 (network asking r.1.calls)
client_main-Session_example = client_main-Session asking ("-cp" ∷ "9124" ∷ []) querying refl

server_main-AllOn_example :
    let r = Server.server_main asking ("-p" ∷ "9123" ∷ []) 3 waiting in
    AllOn asking bound r.1.calls
    × (((r.0 ≡ false) × NoSocket asking r.1.calls)
        ⊎ ((r.0 ≡ true) × (socket_after asking r.1.calls ≡ bound r.1.state.sockfd)))
server_main-AllOn_example = Bound.server_main-AllOn asking ("-p" ∷ "9123" ∷ []) 3 waiting refl
