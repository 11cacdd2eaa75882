-- ===== src/App/Main/Keeps.antt =====
-- What the loop keeps: whatever its tests, its polls and its reads keep.
use cfe_sntp.Base.{ℕ, zero, suc, ◌≢◌, List, ◌∷◌, Bool-cases, inl, inr}
use cfe_sntp.Platform.{Platform, Call}
use cfe_sntp.Platform.Laws.{IsCfe}
use cfe_sntp.World.{World}
use cfe_sntp.App.{SntpData}
use cfe_sntp.App.Main.{
  Client, poll_command, serve, round, run_loop, main_loop, start, finish, sntp_main,
}

module _ (p : Platform) (P : World SntpData → Type 0)
    (tests : (w : World SntpData) → P w → P (run_loop p w).1)
    (polls : (w : World SntpData) → P w → P (poll_command p w).1)
    (serves : (client : Client) (w : World SntpData) → P w → P (serve p client w).1) where
  round-keeps : (client : Client) (w : World SntpData) → P w → P (round p client w).1
  unfolding round
  round-keeps client w holds = serves client _ (polls w holds)

  pub main_loop-keeps :
      (fuel : ℕ) (client : Client) (w : World SntpData) → P w → P (main_loop p fuel client w).1
  unfolding main_loop run_loop
  main_loop-keeps zero client w holds = holds
  main_loop-keeps (suc fuel) client w holds = elim (Bool-cases (run_loop p w).0) [
    | inl more ↦ rw more (main_loop-keeps fuel _ _ (round-keeps client _ (tests w holds)))
    | inr done ↦ rw done (tests w holds)
  ]

  pub sntp_main-keeps :
      (fuel : ℕ) (w : World SntpData)
      → ((v : World SntpData) → P v → P (finish p v).1)
      → P (start p w).1
      → P (sntp_main p fuel w).1
  unfolding sntp_main
  sntp_main-keeps fuel w ends begun =
      let first : Client = record {
        addr = p.answers.unset_addr (start p w).1.calls;
        len = p.sockaddr_size;
      } in
      let looped = main_loop-keeps fuel first (start p w).1 begun in
      elim (Bool-cases (main_loop p fuel first (start p w).1).0) [
        | inl ended ↦ rw ended (ends _ looped)
        | inr running ↦ rw running looped
      ]

-- After a failed initialisation the loop makes one test at most.
pub refused_loop :
    (p : Platform) (cfe : IsCfe p) (Q : List Call → Type 0) (fuel : ℕ) (client : Client)
    (w : World SntpData)
    → w.state.run_status ≢ p.cfe.app_run
    → Q w.calls
    → Q (Call.run_loop w.state.run_status ∷ w.calls)
    → Q (main_loop p fuel client w).1.calls
unfolding main_loop run_loop
refused_loop p cfe Q zero client w failed before tested = before
refused_loop p cfe Q (suc fuel) client w failed before tested =
    rw (cfe.stops w.state.run_status w.calls failed) tested
