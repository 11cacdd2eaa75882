-- ===== src/App/Tally.antt =====
-- The abstract view of the counters: how often each thing happened since the last reset, read off
-- the history of calls and their answers.
pub mod Request
pub mod Command
pub mod Main
pub mod Init
use cfe_sntp.Base.{
  ℕ, suc, ◌≡◌, not, ◌&&◌, List, [], ◌∷◌, ℤ, pos, is_negative, is_positive, ◌==◌, ◌==ℤ◌,
  if◌then◌else◌,
}
use cfe_sntp.Telemetry.{Payload, u8, u16, zero_payload}
use cfe_sntp.Platform.{Platform, Call}
use cfe_sntp.World.{World}
use cfe_sntp.App.{SntpData, commandnop_inf_eid, commandrst_inf_eid, len_err_eid}

-- Counts with no bound on them.
abbrev pub tally_information : ℕ → Payload → Payload
tally_information eid t =
    if eid == commandrst_inf_eid
    then zero_payload
    else if eid == commandnop_inf_eid
    then record t { command_counter = suc t.command_counter }
    else t

abbrev pub tally_error : ℕ → Payload → Payload
tally_error eid t =
    if eid == len_err_eid
    then record t { command_error_counter = suc t.command_error_counter }
    else t

-- A payload holds the counts `t`, each modulo the size of its member.
pub record Shows (c t : Payload) : Type 0 where
  pub errors : c.command_error_counter ≡ u8 t.command_error_counter
  pub commands : c.command_counter ≡ u8 t.command_counter
  pub requests : c.sntp_req_rcv ≡ u16 t.sntp_req_rcv
  pub bad : c.sntp_bad_requests ≡ u16 t.sntp_bad_requests
  pub invalid : c.sntp_invalid_requests ≡ u16 t.sntp_invalid_requests

abbrev pub AllShow : List (Payload × Payload) → Type 0
AllShow [] = Unit
AllShow ((c, t) ∷ rest) = Shows c t × AllShow rest

module _ (p : Platform) where
  -- A datagram is a request by its length. An empty one and a timeout are not counted.
  abbrev pub tally_receive : ℤ → ℕ → Payload → Payload
  tally_receive n errno t =
      if n ==ℤ pos p.sntp.packet_base_size
      then record t { sntp_req_rcv = suc t.sntp_req_rcv }
      else if is_positive n
      then record t { sntp_invalid_requests = suc t.sntp_invalid_requests }
      else if is_negative n && (not (errno == p.etimedout) && not (errno == p.eagain))
      then record t { sntp_invalid_requests = suc t.sntp_invalid_requests }
      else t

  abbrev pub tally_send : ℤ → Payload → Payload
  tally_send sent t =
      if is_negative sent then record t { sntp_bad_requests = suc t.sntp_bad_requests } else t

  -- The history is read with the newest call first.
  abbrev pub tally : List Call → Payload
  tally [] = zero_payload
  tally (Call.send_information eid format arguments ∷ h) = tally_information eid (tally h)
  tally (Call.send_error eid format arguments ∷ h) = tally_error eid (tally h)
  tally (Call.recvfrom fd size ∷ h) =
      tally_receive (p.answers.ret (Call.recvfrom fd size ∷ h))
        (p.answers.received (Call.recvfrom fd size ∷ h)).errno (tally h)
  tally (Call.sendto fd bytes addr len ∷ h) =
      tally_send (p.answers.ret (Call.sendto fd bytes addr len ∷ h)) (tally h)
  tally (_ ∷ h) = tally h

  -- The payloads of the housekeeping packets sent, each with the counts at its time.
  abbrev pub reports : List Call → List (Payload × Payload)
  reports [] = []
  reports (Call.transmit_msg address counted packet ∷ h) = (packet.payload, tally h) ∷ reports h
  reports (_ ∷ h) = reports h

  -- The counters show the counts, and so did every housekeeping packet that was sent.
  pub record IsExact (w : World SntpData) : Type 0 where
    pub counters : Shows w.state.cnts (tally w.calls)
    pub reported : AllShow (reports w.calls)
