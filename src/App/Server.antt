-- ===== src/App/Server.antt =====
-- The app of fsw/src/sntp.c as an abstract server: counts with no bound, and a relation that says what
-- a command or a datagram does to them and what is seen of it.
pub mod Command
pub mod Request
pub mod Laws
use cfe_sntp.Base.{
  ℕ, suc, ◌≡◌, ◌≢◌, ◌⊎◌, Bool, true, false, not, ◌&&◌, List, [], ◌∷◌, ◌++◌, Bytes, ℤ, pos,
  is_negative, is_positive, ◌==◌, ◌==ℤ◌, if◌then◌else◌,
}
use cfe_sntp.Telemetry.{Payload, zero_payload, noop_cc, reset_counters_cc}
use cfe_sntp.Platform.{Platform, Call, Timestamp}
use cfe_sntp.World.{World}
use cfe_sntp.Request.Reply.{IsReply}
use cfe_sntp.App.{SntpData, startup_inf_eid, cmd_mid, send_hk_mid, sntp_stratum}
use cfe_sntp.App.Command.Laws.{noop_event, reset_event, code_event, msg_id_event, length_event}
use cfe_sntp.App.Replies.{Peer}
use cfe_sntp.App.Responses.{id, code, HasLength}
use cfe_sntp.App.Tally.{Shows}
use cfe_sntp.App.Trace.{Datagram}

-- What is seen of the app from outside.
pub data Visible : Type 0 where
  heard : Bytes → Visible  -- a message on the command pipe
  told : Call → Visible  -- an event
  shown : Payload → Visible  -- a housekeeping packet
  requested : Peer → Bytes → Visible  -- a datagram of the length of a packet, and who sent it
  refused : Visible  -- a datagram of another length, or an error of the read
  replied : Bool → Datagram → Visible  -- a datagram handed to `sendto`, and whether it was taken

module _ (p : Platform) where
  -- A read: a request, something invalid, or nothing.
  abbrev pub visible_read : ℤ → ℕ → Visible → List Visible → List Visible
  visible_read n errno request rest =
      if n ==ℤ pos p.sntp.packet_base_size
      then request ∷ rest
      else if is_positive n
      then refused ∷ rest
      else if is_negative n && (not (errno == p.etimedout) && not (errno == p.eagain))
      then refused ∷ rest
      else rest

  -- What is seen of a history, the last first. The startup event is part of the initialisation.
  abbrev pub visible : List Call → List Visible
  visible [] = []
  visible (Call.poll_buffer pipe ∷ h) =
      let rest = visible h in
      if p.answers.ret (Call.poll_buffer pipe ∷ h) ==ℤ p.cfe.success
      then heard (p.answers.message (Call.poll_buffer pipe ∷ h)) ∷ rest
      else rest
  visible (Call.send_information eid format arguments ∷ h) =
      let rest = visible h in
      if eid == startup_inf_eid
      then rest
      else told (Call.send_information eid format arguments) ∷ rest
  visible (Call.send_error eid format arguments ∷ h) =
      told (Call.send_error eid format arguments) ∷ visible h
  visible (Call.transmit_msg address counted packet ∷ h) = shown packet.payload ∷ visible h
  visible (Call.recvfrom fd size ∷ h) =
      let r = p.answers.received (Call.recvfrom fd size ∷ h) in
      visible_read (p.answers.ret (Call.recvfrom fd size ∷ h)) r.errno
        (requested (record { sockfd = fd; addr = r.addr; len = r.addr_len }) r.bytes) (visible h)
  visible (Call.sendto fd bytes addr len ∷ h) =
      replied (not (is_negative (p.answers.ret (Call.sendto fd bytes addr len ∷ h))))
        (record { sockfd = fd; bytes = bytes; addr = addr; len = len })
      ∷ visible h
  visible (_ ∷ h) = visible h

  -- A step of the server: the counts before it, what is seen, and the counts after it.
  pub data Step : Payload → List Visible → Payload → Type 0 where
    noop :
        {t : Payload} {msg : Bytes}
        → id p msg ≡ cmd_mid p
        → code p msg ≡ noop_cc
        → HasLength p msg
        → Step t
            (told noop_event ∷ heard msg ∷ [])
            (record t { command_counter = suc t.command_counter })
    reset :
        {t : Payload} {msg : Bytes}
        → id p msg ≡ cmd_mid p
        → code p msg ≡ reset_counters_cc
        → HasLength p msg
        → Step t (told reset_event ∷ heard msg ∷ []) zero_payload
    wrong_length :
        {t : Payload} {msg : Bytes}
        → id p msg ≡ cmd_mid p
        → (code p msg ≡ noop_cc) ⊎ (code p msg ≡ reset_counters_cc)
        → ¬ HasLength p msg
        → Step t
            (told (length_event p msg p.cfe.command_header_size) ∷ heard msg ∷ [])
            (record t { command_error_counter = suc t.command_error_counter })
    unknown_code :
        {t : Payload} {msg : Bytes}
        → id p msg ≡ cmd_mid p
        → code p msg ≢ noop_cc
        → code p msg ≢ reset_counters_cc
        → Step t (told (code_event (code p msg)) ∷ heard msg ∷ []) t
    unknown_id :
        {t : Payload} {msg : Bytes}
        → id p msg ≢ cmd_mid p
        → id p msg ≢ send_hk_mid p
        → Step t (told (msg_id_event (id p msg)) ∷ heard msg ∷ []) t
    housekeeping :
        {t c : Payload} {msg : Bytes}
        → id p msg ≡ send_hk_mid p
        → Shows c t
        → Step t (shown c ∷ heard msg ∷ []) t
    reply :
        {t : Payload} {from : Peer} {request answer : Bytes} {received sent : Timestamp}
        → IsReply p sntp_stratum request received sent answer
        → Step t
            (replied true
                (record { sockfd = from.sockfd; bytes = answer; addr = from.addr; len = from.len })
              ∷ requested from request
              ∷ [])
            (record t { sntp_req_rcv = suc t.sntp_req_rcv })
    lost_reply :
        {t : Payload} {from : Peer} {request answer : Bytes} {received sent : Timestamp}
        → IsReply p sntp_stratum request received sent answer
        → Step t
            (replied false
                (record { sockfd = from.sockfd; bytes = answer; addr = from.addr; len = from.len })
              ∷ requested from request
              ∷ [])
            (record t {
              sntp_req_rcv = suc t.sntp_req_rcv;
              sntp_bad_requests = suc t.sntp_bad_requests;
            })
    invalid :
        {t : Payload}
        → Step t (refused ∷ []) (record t { sntp_invalid_requests = suc t.sntp_invalid_requests })

  -- The runs of the server, from counts of zero.
  pub data Run : Payload → List Visible → Type 0 where
    begin : Run zero_payload []
    next :
        {t t' : Payload} {seen new after : List Visible}
        → Run t seen
        → Step t new t'
        → after ≡ new ++ seen
        → Run t' after

  -- The app is where a run of the server is: the same was seen, and its counters show the counts.
  pub record Serves (w : World SntpData) : Type 0 where
    pub counts : Payload
    pub run : Run counts (visible w.calls)
    pub shows : Shows w.state.cnts counts
