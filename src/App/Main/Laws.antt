-- ===== src/App/Main/Laws.antt =====
-- One round of the loop of `SNTP_Main` (fsw/src/sntp.c).
use cfe_sntp.Base.{
  ◌≡◌, ◌≢◌, List, sym, ap, subst, ◌∙◌, ◌∷◌, Bytes, length, overwrite_full, AreBytes, pos, ==ℤ_refl,
  ==ℤ_iff, arith,
}
use cfe_sntp.Platform.{Platform, Call, Received}
use cfe_sntp.Platform.Laws.{IsHost, IsCoreSntp, IsAnswers}
use cfe_sntp.World.{World}
use cfe_sntp.Request.{answer_request}
use cfe_sntp.Request.Laws.{first_reading, second_reading, answer_request-IsReply}
use cfe_sntp.Request.Reply.{IsReply}
use cfe_sntp.App.{SntpData, update_cnts, sntp_stratum}
use cfe_sntp.App.Main.{
  Client, process_sntp_request, count_request, poll_command, receive, handle, serve, round,
}
use cfe_sntp.App.Trace.{Datagram, sends}
use cfe_sntp.App.Trace.Command.{poll_command-Silent, poll_command-KeepsSetup}
use cfe_sntp.App.Trace.Request.{second_reading-Silent, send_response-sends}

module _ (p : Platform) where
  -- The history after the read of a round that has polled, and the answer to it.
  abbrev pub read_call : World SntpData → List Call
  read_call u = Call.recvfrom u.state.sockfd p.sntp.packet_base_size ∷ u.calls

  abbrev pub datagram : World SntpData → Received
  datagram u = p.answers.received (read_call u)

  -- The world in which a request is answered.
  abbrev pub asked : Client → World SntpData → World SntpData
  asked client u = (update_cnts count_request (receive p client u).1).1

  -- A read that gives no whole request sends nothing.
  pub serve_other :
      (client : Client) (u : World SntpData)
      → p.answers.ret (read_call u) ≢ pos p.sntp.packet_base_size
      → sends (serve p client u).1.calls ≡ sends u.calls
  unfolding serve receive handle
  serve_other client u other =
      ground (arith, ==ℤ_iff (p.answers.ret (read_call u)) (pos p.sntp.packet_base_size))

  -- A request has its place in the buffer when it is answered.
  pub asked_buffer :
      (client : Client) (u : World SntpData)
      → p.answers.ret (read_call u) ≡ pos p.sntp.packet_base_size
      → length (datagram u).bytes ≡ length u.net_buf
      → (asked client u).net_buf ≡ (datagram u).bytes
  unfolding receive
  asked_buffer client u whole size = rw whole (overwrite_full _ _ size)

  sends-asked :
      (client : Client) (u : World SntpData) → sends (asked client u).calls ≡ sends u.calls
  unfolding receive
  sends-asked client u = ground arith

  -- A whole request is answered, and what follows makes no call.
  pub serve_calls :
      (client : Client) (u : World SntpData)
      → p.answers.ret (read_call u) ≡ pos p.sntp.packet_base_size
      → (serve p client u).1.calls
        ≡ (answer_request p u.state.sockfd sntp_stratum
            (datagram u).addr
            (datagram u).addr_len
            (asked client u)).1.calls
  unfolding serve receive handle process_sntp_request
  serve_calls client u whole = ground (arith, ==ℤ_refl (pos p.sntp.packet_base_size))

  -- A round in which no whole request is read sends no datagram: neither a timeout, nor an error,
  -- nor a datagram of another length, nor any command is answered on the socket.
  pub round_other :
      (client : Client) (w : World SntpData)
      → p.answers.ret (read_call (poll_command p w).1) ≢ pos p.sntp.packet_base_size
      → sends (round p client w).1.calls ≡ sends w.calls
  unfolding round
  round_other client w other =
      serve_other client (poll_command p w).1 other ∙ (poll_command-Silent p w).same_sends

module _ (p : Platform) (host : IsHost p.host) (sntp : IsCoreSntp p.sntp)
    (answers : IsAnswers p) where
  -- The datagram that a request makes the app send.
  abbrev pub Answered : Client → World SntpData → World SntpData → Type 0
  Answered client u u' =
      let r = datagram p u in
      let v = asked p client u in
      (reply : Bytes) × IsReply p sntp_stratum r.bytes (first_reading p v).0 (second_reading p v).0
        reply
      × (sends u'.calls
          ≡ record { sockfd = u.state.sockfd; bytes = reply; addr = r.addr; len = r.addr_len }
            ∷ sends u.calls)

  abbrev sent_to : World SntpData → Received → Bytes → Datagram
  sent_to u r reply = record {
    sockfd = u.state.sockfd;
    bytes = reply;
    addr = r.addr;
    len = r.addr_len;
  }

  pub serve-Answered :
      (client : Client) (u : World SntpData)
      → length u.net_buf ≡ p.sntp.packet_size
      → p.answers.ret (read_call p u) ≡ pos p.sntp.packet_base_size
      → length (datagram p u).bytes ≡ p.sntp.packet_size
      → AreBytes (datagram p u).bytes
      → Answered client u (serve p client u).1
  serve-Answered client u buffer whole size bytes =
      let v = asked p client u in
      let r = datagram p u in
      let held = asked_buffer p client u whole (size ∙ sym buffer) in
      let (reply, right, run) =
        answer_request-IsReply p host sntp answers v (rw held size) (rw held bytes) u.state.sockfd
          sntp_stratum r.addr r.addr_len in
      (
        reply,
        subst (λ b. IsReply p sntp_stratum b (first_reading p v).0 (second_reading p v).0 reply)
            held right,
        ap sends (serve_calls p client u whole)
            ∙ ap (λ s. sends s.1.calls) run
            ∙ (send_response-sends p u.state.sockfd reply r.addr r.addr_len
                (second_reading p v).1).0
            ∙ ap (λ l. sent_to u r reply ∷ l)
                ((second_reading-Silent p v).same_sends ∙ sends-asked p client u),
      )

  -- A round that reads a datagram of the length of a packet sends one datagram: a right reply, from
  -- the app's socket to the sender. The bytes of the datagram may be any, and whatever command was
  -- polled before sends nothing and leaves the socket. The receive buffer has the size of a packet;
  -- the host, the packet's layout and the answers are as documented.
  pub round_request :
      (client : Client) (w : World SntpData)
      → length w.net_buf ≡ p.sntp.packet_size
      → p.answers.ret (read_call p (poll_command p w).1) ≡ pos p.sntp.packet_base_size
      → length (datagram p (poll_command p w).1).bytes ≡ p.sntp.packet_size
      → AreBytes (datagram p (poll_command p w).1).bytes
      → Answered client (poll_command p w).1 (round p client w).1
        × (sends (poll_command p w).1.calls ≡ sends w.calls)
        × ((poll_command p w).1.state.sockfd ≡ w.state.sockfd)
  unfolding round
  round_request client w buffer whole size bytes =
      let polled = poll_command-Silent p w in
      (
        serve-Answered client (poll_command p w).1 (ap length polled.same_buffer ∙ buffer) whole
            size bytes,
        polled.same_sends,
        (poll_command-KeepsSetup p w).same_socket,
      )
