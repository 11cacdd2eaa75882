-- ===== src/App/Pipe/Laws.antt =====
-- The command pipe over a run of `SNTP_Main` (fsw/src/sntp.c).
use Prim.Native.String.{String}
use cfe_sntp.Base.{ℕ, ◌≡◌, ◌≢◌, ◌⊎◌, List, [], ◌∷◌, Bytes, ℤ, inl, ==ℤ_iff, ==ℤ_refl, arith}
use cfe_sntp.Platform.{Platform, Call, Timestamp}
use cfe_sntp.Platform.Laws.{IsCfe}
use cfe_sntp.World.{World, M}
use cfe_sntp.Socket.{init_udp_socket}
use cfe_sntp.Clock.{get_current_sntp_time}
use cfe_sntp.Request.{answer_request, send_response}
use cfe_sntp.Request.Laws.{answer_request_sends, first_reading}
use cfe_sntp.Request.Socket.{answer_request-state}
use cfe_sntp.App.{SntpData, update_cnts, sntp_stratum, cmd_mid, send_hk_mid}
use cfe_sntp.App.Command.{
  verify_cmd_length, noop, reset_counters, report_housekeeping, process_ground_command,
  process_command_packet,
}
use cfe_sntp.App.Init.Cases.{fail_or_cases}
use cfe_sntp.App.Init.{init, prepare, subscribe, open_socket, fail_or}
use cfe_sntp.App.Main.{
  Client, count_request, process_sntp_request, poll_command, receive, handle, serve, run_loop,
  main_loop, start, finish, sntp_main,
}
use cfe_sntp.App.Main.Keeps.{main_loop-keeps, refused_loop}
use cfe_sntp.App.Main.Exit.{entered}
use cfe_sntp.App.Pipe.{made, listening, pipe_after, AllListening, Listens}

module _ (p : Platform) (pipe : ℕ) where
  get_current_sntp_time-Listens {ℓ} :
      {S : Type ℓ} (old : Timestamp) (w : World S)
      → Listens p pipe w.calls
      → Listens p pipe (get_current_sntp_time p old w).1.calls
  unfolding get_current_sntp_time
  get_current_sntp_time-Listens old w now = ground arith

  answer_request-Listens {ℓ} :
      {S : Type ℓ} (fd : ℤ) (level : ℕ) (addr : Bytes) (len : ℕ) (w : World S)
      → Listens p pipe w.calls
      → Listens p pipe (answer_request p fd level addr len w).1.calls
  unfolding send_response
  answer_request-Listens fd level addr len w now =
      let (bytes, run) = answer_request_sends p fd level addr len w in
      let first = get_current_sntp_time-Listens (p.answers.unset_time w.calls) w now in
      let second =
        get_current_sntp_time-Listens (first_reading p w).0 (first_reading p w).1 first in
      rw run (ground arith)

module _ (p : Platform) where
  -- The app's own pipe is there.
  abbrev IsReady : World SntpData → Type 0
  IsReady w = Listens p w.state.command_pipe w.calls

  process_command_packet-IsReady :
      (msg : Bytes) (w : World SntpData) → IsReady w → IsReady (process_command_packet p msg w).1
  unfolding process_command_packet report_housekeeping process_ground_command verify_cmd_length noop
      reset_counters
  process_command_packet-IsReady msg w now = ground arith

  poll_command-IsReady : (w : World SntpData) → IsReady w → IsReady (poll_command p w).1
  unfolding poll_command
  poll_command-IsReady w now = grind (arith, process_command_packet-IsReady)

  serve-IsReady : (client : Client) (w : World SntpData) → IsReady w → IsReady (serve p client w).1
  unfolding serve receive handle process_sntp_request
  serve-IsReady client w now =
      let got = receive p client w in
      let v = (update_cnts count_request got.1).1 in
      ground (
        arith,
        answer_request-Listens p v.state.command_pipe v.state.sockfd sntp_stratum got.0.2.addr
            got.0.2.len v,
        answer_request-state p v.state.sockfd sntp_stratum got.0.2.addr got.0.2.len v,
      )

  run_loop-IsReady : (w : World SntpData) → IsReady w → IsReady (run_loop p w).1
  unfolding run_loop
  run_loop-IsReady w now = ground arith

  main_loop-IsReady :
      (fuel : ℕ) (client : Client) (w : World SntpData)
      → IsReady w
      → IsReady (main_loop p fuel client w).1
  main_loop-IsReady fuel client w now =
      main_loop-keeps p IsReady run_loop-IsReady poll_command-IsReady serve-IsReady fuel client w
        now

  -- How a step of the initialisation leaves the pipe: there, if it succeeds.
  abbrev pub LeavesReady : ℤ → World SntpData → Type 0
  LeavesReady status w = AllListening p w.calls × ((status ≢ p.cfe.success) ⊎ IsReady w)

  fail_or-LeavesReady :
      (text : String) (status : ℤ) (rest : M SntpData ℤ) (w : World SntpData)
      → AllListening p w.calls
      → (status ≡ p.cfe.success → LeavesReady (rest w).0 (rest w).1)
      → LeavesReady (fail_or p text status rest w).0 (fail_or p text status rest w).1
  fail_or-LeavesReady text status rest w so_far after =
      fail_or_cases p LeavesReady text status rest w after (λ bad. (so_far, inl bad))

  open_socket-LeavesReady :
      (w : World SntpData) → IsReady w → LeavesReady (open_socket p w).0 (open_socket p w).1
  unfolding open_socket init_udp_socket
  open_socket-LeavesReady w now = ground arith

  -- The two subscriptions that succeed, on a pipe that was made.
  subscribed :
      (pipe : ℕ) (h : List Call)
      → let first = Call.subscribe (p.cfe.value_to_msg_id (send_hk_mid p)) pipe in
        let second = Call.subscribe (p.cfe.value_to_msg_id (cmd_mid p)) pipe in
        AllListening p h
        → pipe_after p h ≡ made pipe
        → p.answers.ret (first ∷ h) ≡ p.cfe.success
        → p.answers.ret (second ∷ first ∷ h) ≡ p.cfe.success
        → Listens p pipe (second ∷ first ∷ h)
  subscribed pipe h so_far now good good' = record {
    now = rw good' (rw good (rw now (ground (arith, ==ℤ_refl p.cfe.success))));
    always = so_far;
  }

  subscribe-LeavesReady :
      (w : World SntpData)
      → AllListening p w.calls
      → pipe_after p w.calls ≡ made w.state.command_pipe
      → LeavesReady (subscribe p w).0 (subscribe p w).1
  unfolding subscribe
  subscribe-LeavesReady w so_far now = fail_or-LeavesReady _ _ _ _ so_far (λ first.
      fail_or-LeavesReady _ _ _ _ so_far (λ second.
        open_socket-LeavesReady _
          (subscribed w.state.command_pipe w.calls so_far now first second)))

  init-LeavesReady :
      (w : World SntpData) → AllListening p w.calls → LeavesReady (init p w).0 (init p w).1
  unfolding init prepare
  init-LeavesReady w so_far = fail_or-LeavesReady _ _ _ _ so_far (λ registered.
      fail_or-LeavesReady _ _ _ _ so_far (λ created.
        subscribe-LeavesReady _ so_far (rw created (ground (arith, ==ℤ_refl p.cfe.success)))))

  module _ (cfe : IsCfe p) where
    -- In every run of the app each poll of the command pipe is a poll of a pipe that was made and to
    -- which the housekeeping request and then the commands were subscribed, each with success. After
    -- an initialisation that succeeds the app's pipe is so to the end of the run. The run loop must
    -- refuse a status other than that of a running app, and the error status must differ from it.
    pub sntp_main-AllListening :
        (fuel : ℕ) (w : World SntpData)
        → w.calls ≡ []
        → let r = (sntp_main p fuel w).1 in
          AllListening p r.calls
          × (((init p (entered p w)).0 ≢ p.cfe.success)
              ⊎ (pipe_after p r.calls ≡ listening r.state.command_pipe))
    unfolding sntp_main start finish
    sntp_main-AllListening fuel w fresh =
        let v = (start p w).1 in
        let first : Client = record {
          addr = p.answers.unset_addr v.calls;
          len = p.sockaddr_size;
        } in
        let begun : AllListening p (entered p w).calls = ground arith in
        ground (
          arith,
          init-LeavesReady (entered p w) begun,
          ==ℤ_iff (init p (entered p w)).0 p.cfe.success,
          main_loop-IsReady fuel first v,
          refused_loop p cfe (AllListening p) fuel first v,
          cfe.error_stops,
        )
