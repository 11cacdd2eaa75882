-- ===== src/App/Server/Request.antt =====
-- The reads of the app (fsw/src/sntp.c), and what follows them, are steps of the abstract server.
use cfe_sntp.Base.{
  ℕ, ◌≡◌, ◌≢◌, ◌⊎◌, ap, ◌∙◌, sym, subst, not, ◌∷◌, Bytes, length, ℤ, pos, is_negative, inl, inr,
  Bool-cases, Bool, true, false, ◌==ℤ◌, ==ℤ_refl, ==ℤ_iff, if◌then◌else◌, arith,
}
use cfe_sntp.Telemetry.{Payload}
use cfe_sntp.Platform.{Platform, Call, Timestamp}
use cfe_sntp.Platform.Laws.{IsHost, IsCoreSntp, IsAnswers}
use cfe_sntp.World.{World}
use cfe_sntp.Clock.{get_current_sntp_time}
use cfe_sntp.Request.{answer_request, send_response}
use cfe_sntp.Request.Laws.{first_reading, second_reading, answer_request-IsReply}
use cfe_sntp.Request.Reply.{IsReply}
use cfe_sntp.App.{SntpData, sntp_stratum}
use cfe_sntp.App.Main.{
  Client, count_request, count_bad, count_invalid, process_sntp_request, receive, handle, serve,
}
use cfe_sntp.App.Main.Laws.{read_call, datagram, asked, asked_buffer}
use cfe_sntp.App.Replies.Right.{FillsPackets}
use cfe_sntp.App.Trace.{Datagram}
use cfe_sntp.App.Server.{
  Visible, requested, refused, replied, visible, reply, lost_reply, invalid, next, Serves,
}

-- A reply that is lost is counted as bad.
count_lost :
    (good lost : Bool) (c : Payload)
    → good ≡ not lost
    → (if not good then count_bad c else c) ≡ (if lost then count_bad c else c)
count_lost good lost c same = ground arith

module _ {ℓ} {S : Type ℓ} (p : Platform) where
  -- Reading the clock is not seen.
  visible-get_current_sntp_time :
      (old : Timestamp) (w : World S)
      → (visible p (get_current_sntp_time p old w).1.calls ≡ visible p w.calls)
        × ((get_current_sntp_time p old w).1.state ≡ w.state)
  unfolding get_current_sntp_time
  visible-get_current_sntp_time old w = ground arith

  -- A handler that sends these bytes: what is seen, what stays, and the status.
  visible-send_response :
      (sntp : IsCoreSntp p.sntp) (fd : ℤ) (bytes addr : Bytes) (len : ℕ) (w : World S)
      → let r = send_response p fd bytes addr len w in
        let lost = is_negative (p.answers.ret (Call.sendto fd bytes addr len ∷ w.calls)) in
        (visible p r.1.calls
          ≡ replied (not lost) (record { sockfd = fd; bytes = bytes; addr = addr; len = len })
            ∷ visible p w.calls)
        × (r.1.state ≡ w.state)
        × ((r.0 ==ℤ p.sntp.success) ≡ not lost)
  unfolding send_response
  visible-send_response sntp fd bytes addr len w = ground (
    arith,
    sntp.failure_differs,
    ==ℤ_refl p.sntp.success,
    ==ℤ_iff p.sntp.error_network_failure p.sntp.success,
  )

module _ (p : Platform) where
  -- Without a whole request either something invalid is seen and counted, or nothing is.
  serve_other_cases :
      (client : Client) (w : World SntpData)
      → p.answers.ret (read_call p w) ≢ pos p.sntp.packet_base_size
      → let w' = (serve p client w).1 in
        ((visible p w'.calls ≡ refused ∷ visible p w.calls)
          × (w'.state.cnts ≡ count_invalid w.state.cnts))
        ⊎ ((visible p w'.calls ≡ visible p w.calls) × (w'.state.cnts ≡ w.state.cnts))
  unfolding serve receive handle
  serve_other_cases client w other =
      ground (arith, ==ℤ_iff (p.answers.ret (read_call p w)) (pos p.sntp.packet_base_size))

  serve_other-Serves :
      (client : Client) (w : World SntpData)
      → Serves p w
      → p.answers.ret (read_call p w) ≢ pos p.sntp.packet_base_size
      → Serves p (serve p client w).1
  serve_other-Serves client w served other = elim (serve_other_cases client w other) [
    | inl (seen, counted) ↦ record {
      counts = _;
      run = next served.run invalid seen;
      shows = rw counted (let shows = served.shows in ground arith);
    }
    | inr (seen, counted) ↦ record {
      counts = served.counts;
      run = rw seen served.run;
      shows = rw counted served.shows;
    }
  ]

  -- A whole request is seen and counted, and then it is answered.
  serve_whole :
      (client : Client) (w : World SntpData)
      → p.answers.ret (read_call p w) ≡ pos p.sntp.packet_base_size
      → let v = asked p client w in
        let r = datagram p w in
        let a = answer_request p w.state.sockfd sntp_stratum r.addr r.addr_len v in
        ((serve p client w).1.calls ≡ a.1.calls)
        × ((serve p client w).1.state.cnts
            ≡ (if not (a.0 ==ℤ p.sntp.success) then count_bad a.1.state.cnts else a.1.state.cnts))
        × (v.state.cnts ≡ count_request w.state.cnts)
        × (visible p v.calls
            ≡ requested
                (record { sockfd = w.state.sockfd; addr = r.addr; len = r.addr_len })
                r.bytes
              ∷ visible p w.calls)
  unfolding serve receive handle process_sntp_request
  serve_whole client w whole = ground (arith, ==ℤ_refl (pos p.sntp.packet_base_size))

module _ (p : Platform) (host : IsHost p.host) (sntp : IsCoreSntp p.sntp) (answers : IsAnswers p)
    (fills : FillsPackets p) where
  abbrev sent_to : World SntpData → Bytes → Datagram
  sent_to w answer = record {
    sockfd = w.state.sockfd;
    bytes = answer;
    addr = (datagram p w).addr;
    len = (datagram p w).addr_len;
  }

  abbrev requested_by : World SntpData → Visible
  requested_by w =
      let r = datagram p w in
      requested (record { sockfd = w.state.sockfd; addr = r.addr; len = r.addr_len }) r.bytes

  abbrev status_of : Client → World SntpData → ℤ
  status_of client w =
      let r = datagram p w in
      (answer_request p w.state.sockfd sntp_stratum r.addr r.addr_len (asked p client w)).0

  -- What a whole request comes to: a right reply, which is lost or not, and is counted so.
  serve_answered :
      (client : Client) (w : World SntpData)
      → length w.net_buf ≡ p.sntp.packet_size
      → p.answers.ret (read_call p w) ≡ pos p.sntp.packet_base_size
      → let v = asked p client w in
        let w' = (serve p client w).1 in
        let c = count_request w.state.cnts in
        (lost : Bool) × (answer : Bytes) × IsReply p sntp_stratum
          (datagram p w).bytes
          (first_reading p v).0
          (second_reading p v).0
          answer
        × (visible p w'.calls
            ≡ replied (not lost) (sent_to w answer) ∷ requested_by w ∷ visible p w.calls)
        × (w'.state.cnts ≡ (if lost then count_bad c else c))
  serve_answered client w buffer whole =
      let v = asked p client w in
      let r = datagram p w in
      let filled = fills w.state.sockfd p.sntp.packet_base_size w.calls whole in
      let held = asked_buffer p client w whole (filled.0 ∙ sym buffer) in
      let (answer, right, run) =
        answer_request-IsReply p host sntp answers v (rw held filled.0) (rw held filled.1)
          w.state.sockfd sntp_stratum r.addr r.addr_len in
      let u = (second_reading p v).1 in
      let first = visible-get_current_sntp_time p (p.answers.unset_time v.calls) v in
      let second = visible-get_current_sntp_time p (first_reading p v).0 (first_reading p v).1 in
      let sent = visible-send_response p sntp w.state.sockfd answer r.addr r.addr_len u in
      let facts = serve_whole p client w whole in
      let lost =
        is_negative
          (p.answers.ret (Call.sendto w.state.sockfd answer r.addr r.addr_len ∷ u.calls)) in
      let state = sent.1 ∙ second.1 ∙ first.1 in
      let status = ap (λ a. a.0 ==ℤ p.sntp.success) run ∙ sent.2 in
      let cnts = ap (λ a. a.1.state.cnts) run ∙ ap (λ s. s.cnts) state ∙ facts.2 in
      (
        lost,
        answer,
        subst (λ b. IsReply p sntp_stratum b (first_reading p v).0 (second_reading p v).0 answer)
            held right,
        ap (visible p) facts.0
            ∙ ap (λ a. visible p a.1.calls) run
            ∙ sent.0
            ∙ ap (λ l. replied (not lost) (sent_to w answer) ∷ l) (second.0 ∙ first.0 ∙ facts.3),
        facts.1
            ∙ ap (λ c. if not (status_of client w ==ℤ p.sntp.success) then count_bad c else c) cnts
            ∙ count_lost _ lost _ status,
      )

  replied-Serves :
      (lost : Bool) (answer : Bytes) (received sent : Timestamp) (w w' : World SntpData)
      → Serves p w
      → IsReply p sntp_stratum (datagram p w).bytes received sent answer
      → visible p w'.calls
        ≡ replied (not lost) (sent_to w answer) ∷ requested_by w ∷ visible p w.calls
      → let c = count_request w.state.cnts in
        w'.state.cnts ≡ (if lost then count_bad c else c) → Serves p w'
  replied-Serves true answer received sent w w' served right seen counted =
      let shows = served.shows in
      record {
        counts = _;
        run = next served.run (lost_reply right) seen;
        shows = rw counted (ground arith);
      }
  replied-Serves false answer received sent w w' served right seen counted =
      let shows = served.shows in
      record {
        counts = _;
        run = next served.run (reply right) seen;
        shows = rw counted (ground arith);
      }

  pub serve-Serves :
      (client : Client) (w : World SntpData)
      → Serves p w
      → length w.net_buf ≡ p.sntp.packet_size
      → Serves p (serve p client w).1
  serve-Serves client w served buffer =
      let n = p.answers.ret (read_call p w) in
      elim (Bool-cases (n ==ℤ pos p.sntp.packet_base_size)) [
        | inl good ↦
            let (lost, answer, right, seen, counted) =
              serve_answered client w buffer ((==ℤ_iff n _).0 good) in
            replied-Serves lost answer _ _ w _ served right seen counted
        | inr unequal ↦
            serve_other-Serves p client w served
              (ground (arith, ==ℤ_iff n (pos p.sntp.packet_base_size)))
      ]
