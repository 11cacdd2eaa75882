-- ===== src/App/Replies/Right.antt =====
-- The replies of a whole run of `SNTP_Main` (fsw/src/sntp.c), byte for byte.
use cfe_sntp.Base.{
  ℕ, ◌≡◌, ◌≢◌, ◌∙◌, ap, List, [], ◌∷◌, Bytes, AreBytes, length, length-write, ℤ, pos, ◌==ℤ◌,
  ==ℤ_iff, arith, Bool-cases, inl, inr,
}
use cfe_sntp.Platform.{Platform, Timestamp, Call}
use cfe_sntp.Platform.Laws.{IsHost, IsCoreSntp, IsAnswers}
use cfe_sntp.World.{World}
use cfe_sntp.Request.Reply.{IsReply}
use cfe_sntp.App.{SntpData, update_cnts, sntp_stratum}
use cfe_sntp.App.Main.Keeps.{sntp_main-keeps}
use cfe_sntp.App.Main.{
  Client, count_request, process_sntp_request, receive, handle, serve, run_loop, finish, sntp_main,
}
use cfe_sntp.App.Main.Laws.{read_call, datagram, serve-Answered, serve_other}
use cfe_sntp.App.Trace.{Datagram, sends}
use cfe_sntp.App.Replies.{requests, Quiet}
use cfe_sntp.App.Replies.Request.{answer_request-replies, poll_command-Quiet, start-Quiet}

module _ (p : Platform) where
  -- `recvfrom` fills the packet whose length it returns, with bytes.
  abbrev pub FillsPackets : Type 0
  FillsPackets =
      (fd : ℤ) (size : ℕ) (h : List Call)
      → p.answers.ret (Call.recvfrom fd size ∷ h) ≡ pos p.sntp.packet_base_size
      → (length (p.answers.received (Call.recvfrom fd size ∷ h)).bytes ≡ p.sntp.packet_size)
        × AreBytes (p.answers.received (Call.recvfrom fd size ∷ h)).bytes

  module _ (level : ℕ) where
    -- Each datagram sent is a right reply to its request, with that stratum.
    abbrev pub AllRight : List Bytes → List Datagram → Type 0
    AllRight [] [] = Unit
    AllRight (request ∷ qs) (d ∷ ds) =
        ((received : Timestamp) × (sent : Timestamp) × IsReply p level request received sent
            d.bytes)
        × AllRight qs ds
    AllRight _ _ = ⊥

    module _ {ℓ} {S : Type ℓ} where
      pub record IsRight (w : World S) : Type 0 where
        pub buffer : length w.net_buf ≡ p.sntp.packet_size
        pub replies : AllRight (requests p w.calls) (sends w.calls)

      pub Quiet-IsRight : (u w : World S) → Quiet p u w → IsRight u → IsRight w
      Quiet-IsRight u w quiet right = record {
        buffer = ap length quiet.same_buffer ∙ right.buffer;
        replies = rw quiet.same_requests (rw quiet.same_sends right.replies);
      }

  pub serve_requests :
      (client : Client) (u : World SntpData)
      → (requests p (serve p client u).1.calls ≡ requests p (read_call p u))
        × (length (serve p client u).1.net_buf ≡ length u.net_buf)
  unfolding serve receive handle process_sntp_request
  serve_requests client u =
      let got = receive p client u in
      let v = (update_cnts count_request got.1).1 in
      ground (
        arith,
        answer_request-replies p v.state.sockfd sntp_stratum got.0.2.addr got.0.2.len v,
        length-write 0 (datagram p u).bytes u.net_buf,
      )

module _ (p : Platform) (host : IsHost p.host) (sntp : IsCoreSntp p.sntp) (answers : IsAnswers p)
    (fills : FillsPackets p) where
  serve-IsRight :
      (client : Client) (w : World SntpData)
      → IsRight p sntp_stratum w
      → IsRight p sntp_stratum (serve p client w).1
  serve-IsRight client w right =
      let n = p.answers.ret (read_call p w) in
      let base = pos p.sntp.packet_base_size in
      let facts = serve_requests p client w in
      let size = facts.1 ∙ right.buffer in
      elim (Bool-cases (n ==ℤ base)) [
        | inl good ↦
            let whole : n ≡ base = ground (arith, ==ℤ_iff n base) in
            let filled = fills w.state.sockfd p.sntp.packet_base_size w.calls whole in
            let answer =
              serve-Answered p host sntp answers client w right.buffer whole filled.0 filled.1 in
            record {
              buffer = size;
              replies = rw facts.0 (rw answer.2 (rw good ((_, _, answer.1), right.replies)));
            }
        | inr bad ↦
            let other : n ≢ base = ground (arith, ==ℤ_iff n base) in
            record {
              buffer = size;
              replies = rw facts.0 (rw (serve_other p client w other) (rw bad right.replies));
            }
      ]

  run_loop-IsRight :
      (w : World SntpData) → IsRight p sntp_stratum w → IsRight p sntp_stratum (run_loop p w).1
  unfolding run_loop
  run_loop-IsRight w right = record { buffer = right.buffer; replies = right.replies }

  finish-IsRight :
      (w : World SntpData) → IsRight p sntp_stratum w → IsRight p sntp_stratum (finish p w).1
  unfolding finish
  finish-IsRight w right = record { buffer = right.buffer; replies = right.replies }

  -- At every point of a run of the app the datagrams sent are, one for one and in order, right
  -- replies to the datagrams read that have the length of a packet: the request's own transmit
  -- timestamp echoed, the mode, the stratum, two times, and nothing else. The receive buffer has
  -- the size of a packet, a read fills the packet whose length it returns, and the host, the
  -- packet's layout and the other answers are as documented.
  pub sntp_main-IsRight :
      (fuel : ℕ) (w : World SntpData)
      → w.calls ≡ []
      → length w.net_buf ≡ p.sntp.packet_size
      → IsRight p sntp_stratum (sntp_main p fuel w).1
  sntp_main-IsRight fuel w fresh size =
      let begun : IsRight p sntp_stratum w = record { buffer = size; replies = rw fresh tt } in
      sntp_main-keeps p (IsRight p sntp_stratum) run_loop-IsRight
        (λ v right. Quiet-IsRight p sntp_stratum v _ (poll_command-Quiet p v) right) serve-IsRight
        fuel w finish-IsRight (Quiet-IsRight p sntp_stratum w _ (start-Quiet p w) begun)
