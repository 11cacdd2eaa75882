-- ===== src/App/Main/Socket.antt =====
-- The socket of `SNTP_Main` (fsw/src/sntp.c) over a whole run.
use Prim.Native.String.{String}
use cfe_sntp.Base.{ℕ, ◌≡◌, ◌≢◌, ◌⊎◌, [], ◌∷◌, Bytes, ℤ, inl, ==ℤ_refl, ==ℤ_iff, arith}
use cfe_sntp.Platform.{Platform, Call}
use cfe_sntp.Platform.Laws.{IsCfe}
use cfe_sntp.World.{World, M}
use cfe_sntp.Socket.{init_udp_socket}
use cfe_sntp.Socket.Life.{ready, socket_after, AllOn, NoSocket, IsIdle, IsOn}
use cfe_sntp.Request.Socket.{answer_request-IsOn, answer_request-state}
use cfe_sntp.App.{SntpData, update_cnts, sntp_stratum}
use cfe_sntp.App.Command.{
  verify_cmd_length, noop, reset_counters, report_housekeeping, process_ground_command,
  process_command_packet,
}
use cfe_sntp.App.Init.Cases.{fail_or_cases}
use cfe_sntp.App.Init.{init, prepare, subscribe, open_socket, fail_or}
use cfe_sntp.App.Main.{
  Client, count_request, process_sntp_request, poll_command, receive, handle, serve, run_loop,
  main_loop, start, finish, sntp_main,
}
use cfe_sntp.App.Main.Keeps.{main_loop-keeps, refused_loop}
use cfe_sntp.App.Main.Exit.{entered}

module _ (p : Platform) where
  -- The app's own socket is ready.
  abbrev IsOpen : World SntpData → Type 0
  IsOpen w = IsOn p ready w.state.sockfd w.calls

  process_command_packet-IsOpen :
      (msg : Bytes) (w : World SntpData) → IsOpen w → IsOpen (process_command_packet p msg w).1
  unfolding process_command_packet report_housekeeping process_ground_command verify_cmd_length noop
      reset_counters
  process_command_packet-IsOpen msg w open_now = ground arith

  poll_command-IsOpen : (w : World SntpData) → IsOpen w → IsOpen (poll_command p w).1
  unfolding poll_command
  poll_command-IsOpen w open_now = grind (arith, process_command_packet-IsOpen)

  serve-IsOpen : (client : Client) (w : World SntpData) → IsOpen w → IsOpen (serve p client w).1
  unfolding serve receive handle process_sntp_request
  serve-IsOpen client w open_now =
      let got = receive p client w in
      let v = (update_cnts count_request got.1).1 in
      ground (
        arith,
        answer_request-IsOn p ready v.state.sockfd sntp_stratum got.0.2.addr got.0.2.len v,
        answer_request-state p v.state.sockfd sntp_stratum got.0.2.addr got.0.2.len v,
      )

  run_loop-IsOpen : (w : World SntpData) → IsOpen w → IsOpen (run_loop p w).1
  unfolding run_loop
  run_loop-IsOpen w now = ground arith

  main_loop-IsOpen :
      (fuel : ℕ) (client : Client) (w : World SntpData)
      → IsOpen w
      → IsOpen (main_loop p fuel client w).1
  main_loop-IsOpen fuel client w now =
      main_loop-keeps p IsOpen run_loop-IsOpen poll_command-IsOpen serve-IsOpen fuel client w now

  -- How a step of the initialisation leaves the socket: ready if it succeeds, and not there if not.
  abbrev pub LeavesOpen : ℤ → World SntpData → Type 0
  LeavesOpen status w =
      AllOn p ready w.calls
      × (((status ≢ p.cfe.success) × NoSocket p w.calls) ⊎ ((status ≡ p.cfe.success) × IsOpen w))

  module _ (differs : p.cfe.external_resource_fail ≢ p.cfe.success) where
    open_socket-LeavesOpen :
        (w : World SntpData)
        → IsIdle p ready w.calls
        → LeavesOpen (open_socket p w).0 (open_socket p w).1
    unfolding open_socket init_udp_socket
    open_socket-LeavesOpen w ready_so_far =
        ground (arith, ==ℤ_refl (p.answers.ret (Call.socket ∷ w.calls)))

    fail_or-LeavesOpen :
        (text : String) (status : ℤ) (rest : M SntpData ℤ) (w : World SntpData)
        → IsIdle p ready w.calls
        → LeavesOpen (rest w).0 (rest w).1
        → LeavesOpen (fail_or p text status rest w).0 (fail_or p text status rest w).1
    fail_or-LeavesOpen text status rest w ready_so_far after =
        fail_or_cases p LeavesOpen text status rest w (λ good. after)
          (λ bad. (ready_so_far.0, inl (bad, ready_so_far.1)))

    init-LeavesOpen :
        (w : World SntpData) → IsIdle p ready w.calls → LeavesOpen (init p w).0 (init p w).1
    unfolding init prepare subscribe
    init-LeavesOpen w r = fail_or-LeavesOpen _ _ _ _ r (
        fail_or-LeavesOpen _ _ _ _ r (
          fail_or-LeavesOpen _ _ _ _ r (fail_or-LeavesOpen _ _ _ _ r (open_socket-LeavesOpen _ r))))

  module _ (cfe : IsCfe p) where
    -- In every run of the app whatever is read or sent is read or sent on a socket that was bound,
    -- had setsockopt called for its timeout and was not closed since. If the initialisation succeeds,
    -- the app's socket is ready to the end of the run, beyond the exit of the app too: nothing closes
    -- it. If the initialisation fails, no socket is left: none was made, or it was closed. The run loop
    -- must refuse a status other than that of a running app, and the error status and the code for a
    -- missing resource must differ from those of a running app and of a success.
    pub sntp_main-AllOn :
        p.cfe.external_resource_fail ≢ p.cfe.success
        → (fuel : ℕ) (w : World SntpData) → w.calls ≡ []
        → let r = (sntp_main p fuel w).1 in
          AllOn p ready r.calls
          × ((((init p (entered p w)).0 ≢ p.cfe.success) × NoSocket p r.calls)
              ⊎ (((init p (entered p w)).0 ≡ p.cfe.success)
                  × (socket_after p r.calls ≡ ready r.state.sockfd)))
    unfolding sntp_main start finish
    sntp_main-AllOn differs fuel w fresh =
        let v = (start p w).1 in
        let first : Client = record {
          addr = p.answers.unset_addr v.calls;
          len = p.sockaddr_size;
        } in
        let begun : IsIdle p ready (entered p w).calls = ground arith in
        ground (
          arith,
          init-LeavesOpen differs (entered p w) begun,
          ==ℤ_iff (init p (entered p w)).0 p.cfe.success,
          main_loop-IsOpen fuel first v,
          refused_loop p cfe (IsIdle p ready) fuel first v,
          cfe.error_stops,
        )
