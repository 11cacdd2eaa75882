-- ===== src/Tools/Server/Runs.antt =====
-- Whole runs of tools/server_test.c.
use Prim.Native.String.{String}
use cfe_sntp.Base.{ℕ, zero, suc, ◌≡◌, List, [], ◌∷◌, arith}
use cfe_sntp.Platform.{Platform, Call, transmit_seconds}
use cfe_sntp.Platform.Laws.{IsCoreSntp}
use cfe_sntp.World.{World}
use cfe_sntp.App.Replies.{IsPaired}
use cfe_sntp.App.Replies.Request.{answer_request-replies}
use cfe_sntp.Tools.{print_lines}
use cfe_sntp.Tools.Server.{
  ServerState, init_server_socket, run_sntp_server, serve_rounds, server_main,
}
use cfe_sntp.Tools.Server.Laws.{asked}

module _ (p : Platform) (sntp : IsCoreSntp p.sntp) where
  print_lines-IsPaired :
      (lines : List String) (w : World ServerState)
      → IsPaired p w
      → IsPaired p (print_lines p lines w).1
  unfolding print_lines
  print_lines-IsPaired [] w paired = paired
  print_lines-IsPaired (line ∷ lines) w paired = print_lines-IsPaired lines _ (ground arith)

  init_server_socket-IsPaired :
      (w : World ServerState) → IsPaired p w → IsPaired p (init_server_socket p w).1
  unfolding init_server_socket
  init_server_socket-IsPaired w paired = ground arith

  run_sntp_server-IsPaired :
      (w : World ServerState) → IsPaired p w → IsPaired p (run_sntp_server p w).1
  unfolding run_sntp_server
  run_sntp_server-IsPaired w paired =
      let v = asked p w in
      let r = p.answers.received (Call.recvfrom w.state.sockfd p.sntp.packet_base_size ∷ w.calls) in
      ground (
        arith,
        sntp.fits transmit_seconds,
        sntp.word_transmit_seconds,
        sntp.base_size,
        answer_request-replies p w.state.sockfd w.state.server_args.stratum r.addr r.addr_len v,
      )

  serve_rounds-IsPaired :
      (rounds : ℕ) (w : World ServerState) → IsPaired p w → IsPaired p (serve_rounds p rounds w).1
  unfolding serve_rounds
  serve_rounds-IsPaired zero w paired = paired
  serve_rounds-IsPaired (suc rounds) w paired =
      serve_rounds-IsPaired rounds _ (run_sntp_server-IsPaired w paired)

  -- At every point of a run of the standalone server, with any command line, memory and answers of
  -- the platform, the calls of `sendto` are paired with the datagrams read that have the length of a
  -- packet: each reply goes to the address that its request came from, on the same socket, once for
  -- each request and in the order of the requests. Nobody else is sent anything.
  pub server_main-IsPaired :
      (argv : List String) (rounds : ℕ) (w : World ServerState)
      → w.calls ≡ []
      → IsPaired p (server_main p argv rounds w).1
  unfolding server_main
  server_main-IsPaired argv rounds w fresh =
      grind (arith, print_lines-IsPaired, init_server_socket-IsPaired, serve_rounds-IsPaired)
