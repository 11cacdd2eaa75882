-- ===== src/Tools/Server/Socket.antt =====
-- The socket of tools/server_test.c over a whole run.
use Prim.Native.String.{String}
use cfe_sntp.Base.{ℕ, zero, suc, ◌≡◌, ◌⊎◌, true, false, List, [], ◌∷◌, ==ℤ_refl, arith}
use cfe_sntp.Platform.{Platform, Call}
use cfe_sntp.World.{World}
use cfe_sntp.Request.Socket.{answer_request-IsOn, answer_request-state}
use cfe_sntp.Socket.Life.{bound, socket_after, AllOn, NoSocket, IsIdle, IsOn}
use cfe_sntp.Tools.{print_lines}
use cfe_sntp.Tools.Server.{
  ServerState, init_server_socket, run_sntp_server, serve_rounds, server_main,
}
use cfe_sntp.Tools.Server.Laws.{asked}

module _ (p : Platform) where
  abbrev IsOpen : World ServerState → Type 0
  IsOpen w = IsOn p bound w.state.sockfd w.calls

  print_lines-IsIdle :
      (lines : List String) (w : World ServerState)
      → IsIdle p bound w.calls
      → IsIdle p bound (print_lines p lines w).1.calls
  unfolding print_lines
  print_lines-IsIdle [] w on = on
  print_lines-IsIdle (line ∷ lines) w on = print_lines-IsIdle lines _ on

  -- The socket is bound where the process goes on.
  init_server_socket-IsOpen :
      (w : World ServerState)
      → IsIdle p bound w.calls
      → let r = init_server_socket p w in
        AllOn p bound r.1.calls
        × (((r.0 ≡ false) × NoSocket p r.1.calls) ⊎ ((r.0 ≡ true) × IsOpen r.1))
  unfolding init_server_socket
  init_server_socket-IsOpen w on = ground (arith, ==ℤ_refl (p.answers.ret (Call.socket ∷ w.calls)))

  run_sntp_server-IsOpen : (w : World ServerState) → IsOpen w → IsOpen (run_sntp_server p w).1
  unfolding run_sntp_server
  run_sntp_server-IsOpen w open_now =
      let r = p.answers.received (Call.recvfrom w.state.sockfd p.sntp.packet_base_size ∷ w.calls) in
      ground (
        arith,
        answer_request-IsOn p bound w.state.sockfd w.state.server_args.stratum r.addr r.addr_len
            (asked p w),
        answer_request-state p w.state.sockfd w.state.server_args.stratum r.addr r.addr_len
            (asked p w),
      )

  serve_rounds-IsOpen :
      (rounds : ℕ) (w : World ServerState) → IsOpen w → IsOpen (serve_rounds p rounds w).1
  unfolding serve_rounds
  serve_rounds-IsOpen zero w open_now = open_now
  serve_rounds-IsOpen (suc rounds) w open_now =
      serve_rounds-IsOpen rounds _ (run_sntp_server-IsOpen w open_now)

  -- In every run of the standalone server, with any command line, whatever is read or sent is read
  -- or sent on a socket that was bound and was not closed since. Where the process does not exit, the
  -- tool's socket is bound at the end too; where it exits, no socket is left: none was made, or it was
  -- closed.
  pub server_main-AllOn :
      (argv : List String) (rounds : ℕ) (w : World ServerState)
      → w.calls ≡ []
      → let r = server_main p argv rounds w in
        AllOn p bound r.1.calls
        × (((r.0 ≡ false) × NoSocket p r.1.calls)
            ⊎ ((r.0 ≡ true) × (socket_after p r.1.calls ≡ bound r.1.state.sockfd)))
  unfolding server_main
  server_main-AllOn argv rounds w fresh =
      grind (arith, print_lines-IsIdle, init_server_socket-IsOpen, serve_rounds-IsOpen)
