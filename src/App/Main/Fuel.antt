-- ===== src/App/Main/Fuel.antt =====
-- The fuel of the loop of `SNTP_Main` (fsw/src/sntp.c).
use cfe_sntp.Base.{ℕ, zero, suc, ◌≤◌, ◌<◌, ◌≡◌, refl, true, ◌∷◌, List, Bool-cases, inl, inr, arith}
use cfe_sntp.Platform.{Platform, Call}
use cfe_sntp.World.{World}
use cfe_sntp.App.{SntpData}
use cfe_sntp.App.Main.{Client, round, run_loop, main_loop, start, sntp_main}
use cfe_sntp.App.Main.Exit.{StopsBy, first_client, main_loop_ends, sntp_main_ends}

module _ (p : Platform) where
  -- A loop that a test ended does the same with more fuel.
  main_loop_stable :
      (fuel fuel' : ℕ) (client : Client) (w : World SntpData)
      → fuel ≤ fuel'
      → (main_loop p fuel client w).0 ≡ true
      → main_loop p fuel' client w ≡ main_loop p fuel client w
  unfolding main_loop run_loop
  main_loop_stable zero fuel' client w more ended = cc
  main_loop_stable (suc fuel) zero client w more ended = absurd (omega arith)
  main_loop_stable (suc fuel) (suc fuel') client w more ended =
      let next = (run_loop p w).1 in
      let h = Call.run_loop w.state.run_status ∷ w.calls in
      elim (Bool-cases (p.answers.keeps_running h)) [
        | inl goes ↦
            let rest : (main_loop p fuel (round p client next).0 (round p client next).1).0 ≡ true =
              rw goes at ended in
            rw goes (
              main_loop_stable fuel fuel' (round p client next).0 (round p client next).1
                (omega arith) rest)
        | inr done ↦ rw done refl
      ]

  sntp_main_stable :
      (limit fuel : ℕ) (w : World SntpData)
      → StopsBy p limit
      → limit < fuel
      → sntp_main p fuel w ≡ sntp_main p (suc limit) w
  unfolding sntp_main
  sntp_main_stable limit fuel w stops enough =
      let first = first_client p w in
      let v = (start p w).1 in
      let ends = main_loop_ends p limit (suc limit) first v stops (omega arith) in
      rw (main_loop_stable (suc limit) fuel first v (omega arith) ends) refl

  -- If the run loop ends by its test number `limit`, the app ends with any fuel for more than `limit`
  -- tests, its last call is its exit with the run status of the state, and more fuel changes nothing
  -- of the run: all that it did and left is the same with fuel for one test more than `limit`.
  pub sntp_main_total :
      (limit fuel : ℕ) (w : World SntpData)
      → StopsBy p limit
      → limit < fuel
      → let r = sntp_main p fuel w in
        (r.0 ≡ true)
        × (r ≡ sntp_main p (suc limit) w)
        × (rest : List Call) × (r.1.calls ≡ Call.exit_app r.1.state.run_status ∷ rest)
  sntp_main_total limit fuel w stops enough =
      let (ends, rest, last) = sntp_main_ends p limit fuel w stops enough in
      (ends, sntp_main_stable limit fuel w stops enough, rest, last)
