-- ===== src/Tools/Server/Right.antt =====
-- The replies of whole runs of tools/server_test.c, byte for byte.
use Prim.Native.String.{String}
use cfe_sntp.Base.{
  ℕ, zero, suc, ◌<◌, ◌≡◌, ◌≢◌, ◌∙◌, sym, subst, List, [], ◌∷◌, length, length-write, pos, ◌==ℤ◌,
  ==ℤ_iff, Bool-cases, inl, inr, arith,
}
use cfe_sntp.Platform.{Platform, transmit_seconds}
use cfe_sntp.Platform.Laws.{IsHost, IsCoreSntp, IsAnswers}
use cfe_sntp.World.{World}
use cfe_sntp.Request.Socket.{answer_request-state}
use cfe_sntp.App.Trace.{sends}
use cfe_sntp.App.Replies.{requests}
use cfe_sntp.App.Replies.Request.{answer_request-replies}
use cfe_sntp.App.Replies.Right.{FillsPackets, AllRight, IsRight}
use cfe_sntp.Tools.{print_lines}
use cfe_sntp.Tools.Server.{
  ServerState, init_server_socket, run_sntp_server, serve_rounds, server_main,
}
use cfe_sntp.Tools.Server.Laws.{read_call, datagram, asked, run_sntp_server_request}

module _ (p : Platform) where
  -- Without a whole request nothing is sent.
  run_sntp_server-silent :
      (w : World ServerState)
      → p.answers.ret (read_call p w) ≢ pos p.sntp.packet_base_size
      → sends (run_sntp_server p w).1.calls ≡ sends w.calls
  unfolding run_sntp_server
  run_sntp_server-silent w other =
      ground (arith, ==ℤ_iff (p.answers.ret (read_call p w)) (pos p.sntp.packet_base_size))

  -- What a round reads, and what it leaves.
  run_sntp_server_frame :
      (w : World ServerState)
      → 0 < p.sntp.packet_base_size
      → let w' = (run_sntp_server p w).1 in
        (requests p w'.calls ≡ requests p (read_call p w))
        × (length w'.net_buf ≡ length w.net_buf)
        × (w'.state ≡ w.state)
  unfolding run_sntp_server
  run_sntp_server_frame w positive =
      let r = datagram p w in
      let level = w.state.server_args.stratum in
      ground (
        arith,
        answer_request-replies p w.state.sockfd level r.addr r.addr_len (asked p w),
        answer_request-state p w.state.sockfd level r.addr r.addr_len (asked p w),
        length-write 0 r.bytes w.net_buf,
      )

  -- Nobody asked so far.
  record IsUnasked (w : World ServerState) : Type 0 where
    buffer : length w.net_buf ≡ p.sntp.packet_size
    no_requests : requests p w.calls ≡ []
    no_sends : sends w.calls ≡ []

  IsUnasked-IsRight : (level : ℕ) (w : World ServerState) → IsUnasked w → IsRight p level w
  IsUnasked-IsRight level w unasked = record {
    buffer = unasked.buffer;
    replies = rw unasked.no_requests (rw unasked.no_sends tt);
  }

  print_lines-IsUnasked :
      (lines : List String) (w : World ServerState)
      → IsUnasked w
      → IsUnasked (print_lines p lines w).1
  unfolding print_lines
  print_lines-IsUnasked [] w unasked = unasked
  print_lines-IsUnasked (line ∷ lines) w unasked = print_lines-IsUnasked lines _ (ground arith)

  init_server_socket-IsUnasked :
      (w : World ServerState) → IsUnasked w → IsUnasked (init_server_socket p w).1
  unfolding init_server_socket
  init_server_socket-IsUnasked w unasked = ground arith

module _ (p : Platform) (host : IsHost p.host) (sntp : IsCoreSntp p.sntp) (answers : IsAnswers p)
    (fills : FillsPackets p) where
  -- The replies so far are right, with the stratum of the settings.
  abbrev IsServed : World ServerState → Type 0
  IsServed w = IsRight p w.state.server_args.stratum w

  run_sntp_server-IsServed : (w : World ServerState) → IsServed w → IsServed (run_sntp_server p w).1
  run_sntp_server-IsServed w right =
      let level = w.state.server_args.stratum in
      let n = p.answers.ret (read_call p w) in
      let base = pos p.sntp.packet_base_size in
      let positive : 0 < p.sntp.packet_base_size =
        omega (arith, sntp.fits transmit_seconds, sntp.word_transmit_seconds, sntp.base_size) in
      let facts = run_sntp_server_frame p w positive in
      let size = facts.1 ∙ right.buffer in
      let after : AllRight p level (requests p (run_sntp_server p w).1.calls)
          (sends (run_sntp_server p w).1.calls) =
        elim (Bool-cases (n ==ℤ base)) [
          | inl good ↦
              let whole : n ≡ base = ground (arith, ==ℤ_iff n base) in
              let filled = fills w.state.sockfd p.sntp.packet_base_size w.calls whole in
              let answer =
                run_sntp_server_request p host sntp answers w right.buffer whole filled.0
                  filled.1 in
              rw facts.0 (rw answer.2 (rw good ((_, _, answer.1), right.replies)))
          | inr unequal ↦
              let other : n ≢ base = ground (arith, ==ℤ_iff n base) in
              rw facts.0 (rw (run_sntp_server-silent p w other) (rw unequal right.replies))
        ] in
      subst (λ s. IsRight p s.server_args.stratum (run_sntp_server p w).1) (sym facts.2)
        (record { buffer = size; replies = after })

  serve_rounds-IsServed :
      (rounds : ℕ) (w : World ServerState) → IsServed w → IsServed (serve_rounds p rounds w).1
  unfolding serve_rounds
  serve_rounds-IsServed zero w right = right
  serve_rounds-IsServed (suc rounds) w right =
      serve_rounds-IsServed rounds _ (run_sntp_server-IsServed w right)

  -- At every point of a run of the standalone server, with any command line, the datagrams sent are,
  -- one for one and in order, right replies to the datagrams read that have the length of a packet,
  -- each with the stratum of the settings. The receive buffer has the size of a packet, a read fills
  -- the packet whose length it returns, and the host, the packet's layout and the other answers are
  -- as documented.
  pub server_main-IsRight :
      (argv : List String) (rounds : ℕ) (w : World ServerState)
      → w.calls ≡ []
      → length w.net_buf ≡ p.sntp.packet_size
      → let r = (server_main p argv rounds w).1 in IsRight p r.state.server_args.stratum r
  unfolding server_main
  server_main-IsRight argv rounds w fresh size = grind (
    arith,
    print_lines-IsUnasked p,
    init_server_socket-IsUnasked p,
    IsUnasked-IsRight p,
    serve_rounds-IsServed,
  )
