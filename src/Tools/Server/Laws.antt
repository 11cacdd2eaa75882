-- ===== src/Tools/Server/Laws.antt =====
-- The standalone server: its options, and the reply to a request.
use mathlib.Core.List.{foldl}
use Prim.Native.String.{String}
use cfe_sntp.Base.{
  Bool, ◌<◌, ◌≡◌, ◌≢◌, refl, sym, ap, subst, ◌∙◌, true, false, List, [], ◌∷◌, Bytes, length,
  overwrite_full, write, AreBytes, pos, ==ℤ_iff, ==ℤ_refl, to_u16, to_u8, arith,
}
use cfe_sntp.Platform.{Platform, Call, Received, transmit_seconds}
use cfe_sntp.Platform.Laws.{IsHost, IsCoreSntp, IsAnswers}
use cfe_sntp.World.{World}
use cfe_sntp.Request.{answer_request}
use cfe_sntp.Request.Laws.{first_reading, second_reading, answer_request-IsReply}
use cfe_sntp.Request.Reply.{IsReply}
use cfe_sntp.App.Trace.{Datagram, sends}
use cfe_sntp.App.Trace.Request.{second_reading-Silent, send_response-sends}
use cfe_sntp.Tools.{parsed, parse_loop}
use cfe_sntp.Tools.Server.{
  ServerArgs, ServerState, set_server_option, parse_server_args, run_sntp_server,
}

-- An option of the server, in its short or its long form, with the text of its value.
pub data ServerOption : Type 0 where
  port_option stratum_option : Bool → String → ServerOption

module _ (p : Platform) where
  abbrev pub words_of : ServerOption → List String → List String
  words_of (port_option true text) rest = "-p" ∷ text ∷ rest
  words_of (port_option false text) rest = "--port" ∷ text ∷ rest
  words_of (stratum_option true text) rest = "-s" ∷ text ∷ rest
  words_of (stratum_option false text) rest = "--stratum" ∷ text ∷ rest

  abbrev pub command_line : List ServerOption → List String
  command_line [] = []
  command_line (o ∷ os) = words_of o (command_line os)

  abbrev pub chosen : ServerArgs → ServerOption → ServerArgs
  chosen a (port_option short text) = record a { port = to_u16 (p.host.atoi text) }
  chosen a (stratum_option short text) = record a { stratum = to_u8 (p.host.atoi text) }

  -- Any options in any order are read, whatever their values look like, and the last of a kind
  -- holds. A port is cut to 16 bits and a stratum to 8.
  pub parse_server_args-command_line :
      (options : List ServerOption) (a : ServerArgs)
      → parse_server_args p (command_line options) a ≡ parsed (foldl chosen a options)
  unfolding parse_server_args parse_loop set_server_option
  parse_server_args-command_line [] a = refl
  parse_server_args-command_line (port_option true text ∷ os) a =
      parse_server_args-command_line os _
  parse_server_args-command_line (port_option false text ∷ os) a =
      parse_server_args-command_line os _
  parse_server_args-command_line (stratum_option true text ∷ os) a =
      parse_server_args-command_line os _
  parse_server_args-command_line (stratum_option false text ∷ os) a =
      parse_server_args-command_line os _

  abbrev pub read_call : World ServerState → List Call
  read_call w = Call.recvfrom w.state.sockfd p.sntp.packet_base_size ∷ w.calls

  abbrev pub datagram : World ServerState → Received
  datagram w = p.answers.received (read_call w)

  -- The world in which a request is answered.
  abbrev pub asked : World ServerState → World ServerState
  asked w = record w {
    net_buf = write 0 (datagram w).bytes w.net_buf;
    calls = Call.os_printf "Received NTP Request\n" [] ∷ read_call w;
  }

  run_sntp_server-asked :
      (w : World ServerState)
      → 0 < p.sntp.packet_base_size
      → p.answers.ret (read_call w) ≡ pos p.sntp.packet_base_size
      → run_sntp_server p w
        ≡ answer_request p w.state.sockfd w.state.server_args.stratum
            (datagram w).addr
            (datagram w).addr_len
            (asked w)
  unfolding run_sntp_server
  run_sntp_server-asked w positive whole = ground (arith, ==ℤ_refl (pos p.sntp.packet_base_size))

  -- Without a whole request nothing is sent, the settings stay, and the status is no success. The
  -- statuses of a network failure and of a missing response must differ from that of a success.
  pub run_sntp_server_other :
      (w : World ServerState)
      → p.sntp.error_network_failure ≢ p.sntp.success
      → p.sntp.no_response_received ≢ p.sntp.success
      → p.answers.ret (read_call w) ≢ pos p.sntp.packet_base_size
      → let r = run_sntp_server p w in
        (sends r.1.calls ≡ sends w.calls) × (r.0 ≢ p.sntp.success) × (r.1.state ≡ w.state)
  unfolding run_sntp_server
  run_sntp_server_other w network none other =
      ground (arith, ==ℤ_iff (p.answers.ret (read_call w)) (pos p.sntp.packet_base_size))

module _ (p : Platform) (host : IsHost p.host) (sntp : IsCoreSntp p.sntp)
    (answers : IsAnswers p) where
  abbrev sent_to : World ServerState → Received → Bytes → Datagram
  sent_to w r reply = record {
    sockfd = w.state.sockfd;
    bytes = reply;
    addr = r.addr;
    len = r.addr_len;
  }

  -- A datagram of the length of a packet is answered by one datagram, a right reply with the stratum
  -- of the settings, from the tool's socket to the sender. The receive buffer has the size of a
  -- packet; the host, the packet's layout and the answers are as documented.
  pub run_sntp_server_request :
      (w : World ServerState)
      → length w.net_buf ≡ p.sntp.packet_size
      → p.answers.ret (read_call p w) ≡ pos p.sntp.packet_base_size
      → length (datagram p w).bytes ≡ p.sntp.packet_size
      → AreBytes (datagram p w).bytes
      → let r = datagram p w in
        let v = asked p w in
        (reply : Bytes) × IsReply p w.state.server_args.stratum r.bytes
          (first_reading p v).0
          (second_reading p v).0
          reply
        × (sends (run_sntp_server p w).1.calls
            ≡ record { sockfd = w.state.sockfd; bytes = reply; addr = r.addr; len = r.addr_len }
              ∷ sends w.calls)
  run_sntp_server_request w buffer whole size bytes =
      let r = datagram p w in
      let v = asked p w in
      let level = w.state.server_args.stratum in
      let held : v.net_buf ≡ r.bytes = overwrite_full _ _ (size ∙ sym buffer) in
      let positive : 0 < p.sntp.packet_base_size =
        omega (arith, sntp.fits transmit_seconds, sntp.word_transmit_seconds, sntp.base_size) in
      let (reply, right, run) =
        answer_request-IsReply p host sntp answers v (rw held size) (rw held bytes) w.state.sockfd
          level r.addr r.addr_len in
      (
        reply,
        subst (λ b. IsReply p level b (first_reading p v).0 (second_reading p v).0 reply) held
            right,
        ap (λ s. sends s.1.calls) (run_sntp_server-asked p w positive whole ∙ run)
            ∙ (send_response-sends p w.state.sockfd reply r.addr r.addr_len
                (second_reading p v).1).0
            ∙ ap (λ l. sent_to w r reply ∷ l) (second_reading-Silent p v).same_sends,
      )
