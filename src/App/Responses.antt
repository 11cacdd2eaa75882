-- ===== src/App/Responses.antt =====
-- The messages that the app of fsw/src/sntp.c polls from its command pipe, and what it answers to each:
-- an event, or its telemetry.
pub mod Laws
use cfe_sntp.Base.{ℕ, ◌≡◌, ◌≢◌, ◌⊎◌, List, [], ◌∷◌, ◌==◌, ◌==ℤ◌, if◌then◌else◌, Bytes}
use cfe_sntp.Telemetry.{noop_cc, reset_counters_cc}
use cfe_sntp.Platform.{Platform, Call}
use cfe_sntp.World.{World}
use cfe_sntp.App.{SntpData, startup_inf_eid, cmd_mid, send_hk_mid}
use cfe_sntp.App.Command.Laws.{noop_event, reset_event, code_event, msg_id_event, length_event}

pub data Response : Type 0 where
  event : Call → Response
  telemetry : Response

-- The responses in a history, the last one first. The startup event answers no message.
abbrev pub responses : List Call → List Response
responses [] = []
responses (Call.send_information eid format arguments ∷ h) =
    let rest = responses h in
    if eid == startup_inf_eid
    then rest
    else event (Call.send_information eid format arguments) ∷ rest
responses (Call.send_error eid format arguments ∷ h) =
    event (Call.send_error eid format arguments) ∷ responses h
responses (Call.transmit_msg address counted packet ∷ h) = telemetry ∷ responses h
responses (_ ∷ h) = responses h

module _ (p : Platform) where
  -- The messages in a history, the last one first.
  abbrev pub messages : List Call → List Bytes
  messages [] = []
  messages (Call.poll_buffer pipe ∷ h) =
      let rest = messages h in
      if p.answers.ret (Call.poll_buffer pipe ∷ h) ==ℤ p.cfe.success
      then p.answers.message (Call.poll_buffer pipe ∷ h) ∷ rest
      else rest
  messages (_ ∷ h) = messages h

  abbrev pub id : Bytes → ℕ
  id msg = p.cfe.msg_id_to_value (p.cfe.get_msg_id msg)

  abbrev pub code : Bytes → ℕ
  code msg = p.cfe.get_fcn_code msg

  abbrev pub HasLength : Bytes → Type 0
  HasLength msg = p.cfe.get_size msg ≡ p.cfe.command_header_size

  -- The response that a message calls for.
  pub data Asks : Bytes → Response → Type 0 where
    housekeeping : {msg : Bytes} → id msg ≡ send_hk_mid p → Asks msg telemetry
    noop :
        {msg : Bytes}
        → id msg ≡ cmd_mid p
        → code msg ≡ noop_cc
        → HasLength msg
        → Asks msg (event noop_event)
    reset :
        {msg : Bytes}
        → id msg ≡ cmd_mid p
        → code msg ≡ reset_counters_cc
        → HasLength msg
        → Asks msg (event reset_event)
    wrong_length :
        {msg : Bytes}
        → id msg ≡ cmd_mid p
        → (code msg ≡ noop_cc) ⊎ (code msg ≡ reset_counters_cc)
        → ¬ HasLength msg
        → Asks msg (event (length_event p msg p.cfe.command_header_size))
    unknown_code :
        {msg : Bytes}
        → id msg ≡ cmd_mid p
        → code msg ≢ noop_cc
        → code msg ≢ reset_counters_cc
        → Asks msg (event (code_event (code msg)))
    unknown_id :
        {msg : Bytes}
        → id msg ≢ cmd_mid p
        → id msg ≢ send_hk_mid p
        → Asks msg (event (msg_id_event (id msg)))

  -- One response to each message, in the order of the messages.
  abbrev pub AllAnswered : List Bytes → List Response → Type 0
  AllAnswered [] [] = Unit
  AllAnswered (msg ∷ ms) (r ∷ rs) = Asks msg r × AllAnswered ms rs
  AllAnswered _ _ = ⊥

  abbrev pub IsAnswered : World SntpData → Type 0
  IsAnswered w = AllAnswered (messages w.calls) (responses w.calls)
