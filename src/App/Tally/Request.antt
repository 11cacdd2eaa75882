-- ===== src/App/Tally/Request.antt =====
-- The counts through `process_sntp_request` (fsw/src/sntp.c).
use cfe_sntp.Base.{
  ℕ, suc, ◌≡◌, ap, ◌∙◌, Bool, not, Bytes, ℤ, ◌==ℤ◌, ==ℤ_refl, ==ℤ_iff, if◌then◌else◌, arith,
}
use cfe_sntp.Telemetry.{Payload}
use cfe_sntp.Platform.{Platform, Timestamp}
use cfe_sntp.Platform.Laws.{IsCoreSntp}
use cfe_sntp.World.{World}
use cfe_sntp.Packet.{deserialize_request}
use cfe_sntp.Clock.{get_current_sntp_time}
use cfe_sntp.Request.{answer_request, send_response}
use cfe_sntp.App.Tally.{tally, reports}

abbrev pub one_more_bad : Payload → Payload
one_more_bad t = record t { sntp_bad_requests = suc t.sntp_bad_requests }

module _ {ℓ} {S : Type ℓ} (p : Platform) where
  -- `w'` has the state and the reports of `w`, and the counts `t`.
  pub record Counts (w : World S) (t : Payload) (w' : World S) : Type ℓ where
    pub same_state : w'.state ≡ w.state
    pub same_reports : reports p w'.calls ≡ reports p w.calls
    pub counts : tally p w'.calls ≡ t

  get_current_sntp_time-Counts :
      (old : Timestamp) (w : World S) → Counts w (tally p w.calls) (get_current_sntp_time p old w).1
  unfolding get_current_sntp_time
  get_current_sntp_time-Counts old w = record {
    same_state = ground arith;
    same_reports = ground arith;
    counts = ground arith;
  }

  send_response-Counts :
      (sntp : IsCoreSntp p.sntp) (fd : ℤ) (bytes addr : Bytes) (len : ℕ) (w : World S)
      → let r = send_response p fd bytes addr len w in
        Counts w
          (if not (r.0 ==ℤ p.sntp.success) then one_more_bad (tally p w.calls) else tally p w.calls)
          r.1
  unfolding send_response
  send_response-Counts sntp fd bytes addr len w = record {
    same_state = ground arith;
    same_reports = ground arith;
    counts = ground (
      arith,
      sntp.failure_differs,
      ==ℤ_refl p.sntp.success,
      ==ℤ_iff p.sntp.error_network_failure p.sntp.success,
    );
  }

  Counts-after :
      (b : Bool) (w u v : World S)
      → Counts w (tally p w.calls) u
      → Counts u (if b then one_more_bad (tally p u.calls) else tally p u.calls) v
      → Counts w (if b then one_more_bad (tally p w.calls) else tally p w.calls) v
  Counts-after b w u v q c = record {
    same_state = c.same_state ∙ q.same_state;
    same_reports = c.same_reports ∙ q.same_reports;
    counts = c.counts ∙ ap (λ t. if b then one_more_bad t else t) q.counts;
  }

  pub answer_request-Counts :
      (sntp : IsCoreSntp p.sntp) (fd : ℤ) (level : ℕ) (addr : Bytes) (len : ℕ) (w : World S)
      → let r = answer_request p fd level addr len w in
        Counts w
          (if not (r.0 ==ℤ p.sntp.success) then one_more_bad (tally p w.calls) else tally p w.calls)
          r.1
  unfolding answer_request deserialize_request
  answer_request-Counts sntp fd level addr len w = rw (==ℤ_refl p.sntp.success) (
      Counts-after _ w _ _ (get_current_sntp_time-Counts _ w) (
        Counts-after _ _ _ _ (get_current_sntp_time-Counts _ _)
          (send_response-Counts sntp fd _ addr len _)))
