-- ===== src/App/Responses/Laws.antt =====
-- The responses of `SNTP_Main` (fsw/src/sntp.c), part by part.
use cfe_sntp.Base.{ℕ, ◌≡◌, [], ◌∷◌, Bytes, ℤ, inl, inr, sym, ap, refl, ◌∙◌, subst, arith}
use cfe_sntp.Platform.{Platform, Call, Timestamp}
use cfe_sntp.Platform.Laws.{IsCfe}
use cfe_sntp.World.{World, call}
use cfe_sntp.Clock.{get_current_sntp_time}
use cfe_sntp.Request.{answer_request, send_response}
use cfe_sntp.Request.Laws.{answer_request_sends}
use cfe_sntp.App.{SntpData, update_cnts, sntp_stratum, cmd_mid}
use cfe_sntp.App.Command.{process_ground_command, process_command_packet}
use cfe_sntp.App.Command.Laws.{process_ground_command_fates, process_command_packet_routes}
use cfe_sntp.App.Init.Keeps.{IsSetup, start-keeps}
use cfe_sntp.App.Main.{
  Client, count_request, process_sntp_request, poll_command, receive, handle, serve, run_loop,
  start, finish, sntp_main,
}
use cfe_sntp.App.Main.Keeps.{sntp_main-keeps}
use cfe_sntp.App.Responses.{
  Response, event, telemetry, responses, messages, Asks, housekeeping, noop, reset, wrong_length,
  unknown_code, unknown_id, id, IsAnswered,
}

module _ {ℓ} {S : Type ℓ} (p : Platform) where
  -- From `w` to `w'` no message was polled and nothing was answered.
  record Same (w w' : World S) : Type 0 where
    same_messages : messages p w'.calls ≡ messages p w.calls
    same_responses : responses w'.calls ≡ responses w.calls

  Same-trans : {u v w : World S} → Same u v → Same v w → Same u w
  Same-trans a b = record {
    same_messages = b.same_messages ∙ a.same_messages;
    same_responses = b.same_responses ∙ a.same_responses;
  }

  get_current_sntp_time-Same :
      (old : Timestamp) (w : World S) → Same w (get_current_sntp_time p old w).1
  unfolding get_current_sntp_time
  get_current_sntp_time-Same old w = ground arith

  send_response-Same :
      (fd : ℤ) (bytes addr : Bytes) (len : ℕ) (w : World S)
      → Same w (send_response p fd bytes addr len w).1
  unfolding send_response
  send_response-Same fd bytes addr len w = ground arith

  answer_request-Same :
      (fd : ℤ) (level : ℕ) (addr : Bytes) (len : ℕ) (w : World S)
      → Same w (answer_request p fd level addr len w).1
  answer_request-Same fd level addr len w =
      let (bytes, run) = answer_request_sends p fd level addr len w in
      subst (λ r. Same w r.1) (sym run)
        (Same-trans (get_current_sntp_time-Same _ w)
          (Same-trans (get_current_sntp_time-Same _ _) (send_response-Same fd bytes addr len _)))

module _ (p : Platform) where
  -- From `w` to `w'` no message was polled, and one response was made.
  record Responds (msg : Bytes) (w w' : World SntpData) : Type 0 where
    response : Response
    asked : Asks p msg response
    one_response : responses w'.calls ≡ response ∷ responses w.calls
    same_messages : messages p w'.calls ≡ messages p w.calls

  -- What a handler does, from its last call.
  responds :
      {msg : Bytes} {w w' : World SntpData} (c : Call)
      → Asks p msg (event c)
      → (responses (c ∷ w.calls) ≡ event c ∷ responses w.calls)
      → (messages p (c ∷ w.calls) ≡ messages p w.calls)
      → w'.calls ≡ c ∷ w.calls
      → Responds msg w w'
  responds c asks made same last = record {
    response = event c;
    asked = asks;
    one_response = ap responses last ∙ made;
    same_messages = ap (messages p) last ∙ same;
  }

  process_ground_command-Responds :
      (msg : Bytes) (w : World SntpData)
      → id p msg ≡ cmd_mid p
      → Responds msg w (process_ground_command p msg w).1
  process_ground_command-Responds msg w named = elim (process_ground_command_fates p msg w) [
    | inl (code, size, after) ↦ responds _ (noop named code size) refl refl after.1
    | inr (inl (code, size, after)) ↦ responds _ (reset named code size) refl refl after.1
    | inr (inr (inl (code, size, after))) ↦
        responds _ (wrong_length named code size) refl refl after.1
    | inr (inr (inr (first, second, after))) ↦
        responds _ (unknown_code named first second) refl refl after.1
  ]

  process_command_packet-Responds :
      (cfe : IsCfe p) (msg : Bytes) (w : World SntpData)
      → Responds msg w (process_command_packet p msg w).1
  process_command_packet-Responds cfe msg w = elim (process_command_packet_routes p cfe msg w) [
    | inl (named, run) ↦
        subst (λ r. Responds msg w r.1) (sym run) (process_ground_command-Responds msg w named)
    | inr (inl (named, last, shown, after)) ↦ record {
      response = telemetry;
      asked = housekeeping named;
      one_response = ap responses last;
      same_messages = ap (messages p) last;
    }
    | inr (inr (first, second, state, last)) ↦ responds _ (unknown_id first second) refl refl last
  ]

  module _ (cfe : IsCfe p) where
    poll_command-IsAnswered :
        (w : World SntpData) → IsAnswered p w → IsAnswered p (poll_command p w).1
    unfolding poll_command
    poll_command-IsAnswered w answered = grind (arith, process_command_packet-Responds cfe)

    serve-IsAnswered :
        (client : Client) (w : World SntpData) → IsAnswered p w → IsAnswered p (serve p client w).1
    unfolding serve receive handle process_sntp_request
    serve-IsAnswered client w answered =
        let got = receive p client w in
        let v = (update_cnts count_request got.1).1 in
        ground (arith, answer_request-Same p v.state.sockfd sntp_stratum got.0.2.addr got.0.2.len v)

    run_loop-IsAnswered : (w : World SntpData) → IsAnswered p w → IsAnswered p (run_loop p w).1
    unfolding run_loop
    run_loop-IsAnswered w answered = answered

    finish-IsAnswered : (w : World SntpData) → IsAnswered p w → IsAnswered p (finish p w).1
    unfolding finish
    finish-IsAnswered w answered = answered

    setup-Same :
        (u : World SntpData) (c : Call) (w : World SntpData)
        → IsSetup c
        → Same p u w
        → Same p u (call p c w).1
    setup-Same u c w setup same = ground arith

    start-Same : (w : World SntpData) → Same p w (start p w).1
    start-Same w =
        start-keeps p (Same p w) (λ s v same. ground arith) (setup-Same w) w (ground arith)

    -- At every point of a run of the app each message that it polled from its command pipe had one
    -- response, in the order of the messages, and there was no other: the telemetry for the
    -- housekeeping request, and one event for anything else, by its id, its code and its length. The
    -- startup event is none. The platform's time stamp must leave a payload alone.
    pub sntp_main-IsAnswered :
        (fuel : ℕ) (w : World SntpData) → w.calls ≡ [] → IsAnswered p (sntp_main p fuel w).1
    sntp_main-IsAnswered fuel w fresh =
        let begun = start-Same w in
        sntp_main-keeps p (IsAnswered p) run_loop-IsAnswered poll_command-IsAnswered
          serve-IsAnswered fuel w finish-IsAnswered
          (rw begun.same_messages (rw begun.same_responses (rw fresh tt)))
