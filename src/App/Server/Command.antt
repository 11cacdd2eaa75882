-- ===== src/App/Server/Command.antt =====
-- The polls of the app (fsw/src/sntp.c) are steps of the abstract server.
use cfe_sntp.Base.{
  ◌≡◌, refl, ap, ◌∙◌, sym, subst, [], ◌∷◌, List, Bytes, inl, inr, Bool-cases, ◌==ℤ◌, arith,
}
use cfe_sntp.Telemetry.{Payload}
use cfe_sntp.Platform.{Platform, Call}
use cfe_sntp.Platform.Laws.{IsCfe}
use cfe_sntp.World.{World}
use cfe_sntp.App.{SntpData, perf_id, cmd_mid}
use cfe_sntp.App.Command.{process_ground_command, process_command_packet}
use cfe_sntp.App.Command.Laws.{process_ground_command_fates, process_command_packet_routes}
use cfe_sntp.App.Main.{poll_command}
use cfe_sntp.App.Responses.{id}
use cfe_sntp.App.Tally.{Shows}
use cfe_sntp.App.Server.{
  Visible, heard, visible, Step, noop, reset, wrong_length, unknown_code, unknown_id, housekeeping,
  Run, next, Serves,
}

module _ (p : Platform) where
  module _ (msg : Bytes) (w : World SntpData) {t : Payload} {seen : List Visible}
      (run : Run p t seen) (polled : visible p w.calls ≡ heard msg ∷ seen)
      (shows : Shows w.state.cnts t) where
    -- The answer to the message.
    answers :
        {t' : Payload} (v : Visible) (w' : World SntpData)
        → Step p t (v ∷ heard msg ∷ []) t'
        → visible p w'.calls ≡ v ∷ visible p w.calls
        → Shows w'.state.cnts t'
        → Serves p w'
    answers v w' step same shows' = record {
      counts = _;
      run = next run step (same ∙ ap (λ l. v ∷ l) polled);
      shows = shows';
    }

    process_ground_command-Serves :
        id p msg ≡ cmd_mid p → Serves p (process_ground_command p msg w).1
    process_ground_command-Serves named = elim (process_ground_command_fates p msg w) [
      | inl (code, size, after) ↦
          answers _ _ (noop named code size) (ap (visible p) after.1) (rw after.0 (ground arith))
      | inr (inl (code, size, after)) ↦
          answers _ _ (reset named code size) (ap (visible p) after.1) (rw after.0 (ground arith))
      | inr (inr (inl (code, size, after))) ↦
          answers _ _ (wrong_length named code size) (ap (visible p) after.1)
            (rw after.0 (ground arith))
      | inr (inr (inr (first, second, after))) ↦
          answers _ _ (unknown_code named first second) (ap (visible p) after.1) (rw after.0 shows)
    ]

    process_command_packet-Serves : IsCfe p → Serves p (process_command_packet p msg w).1
    process_command_packet-Serves cfe = elim (process_command_packet_routes p cfe msg w) [
      | inl (named, same) ↦
          subst (λ r. Serves p r.1) (sym same) (process_ground_command-Serves named)
      | inr (inl (named, calls, payload, state)) ↦
          answers _ _ (housekeeping named (subst (λ c. Shows c t) (sym payload) shows))
            (ap (visible p) calls) (subst (λ s. Shows s.cnts t) (sym state) shows)
      | inr (inr (first, second, state, calls)) ↦
          answers _ _ (unknown_id first second) (ap (visible p) calls) (rw state shows)
    ]

  pub poll_command-Serves :
      IsCfe p → (w : World SntpData) → Serves p w → Serves p (poll_command p w).1
  unfolding poll_command
  poll_command-Serves cfe w served =
      let h = Call.poll_buffer w.state.command_pipe ∷ Call.perf_log_exit perf_id ∷ w.calls in
      let after : World SntpData = record w {
        calls = Call.os_printf "SNTP CMD Received\n" [] ∷ Call.perf_log_entry perf_id ∷ h;
      } in
      elim (Bool-cases (p.answers.ret h ==ℤ p.cfe.success)) [
        | inl good ↦ rw good (
            process_command_packet-Serves (p.answers.message h) after served.run (rw good refl)
              served.shows cfe)
        | inr unequal ↦
            rw unequal
              (record { counts = served.counts; run = rw unequal served.run; shows = served.shows })
      ]
