-- ===== src/App/Replies/Times/Main.antt =====
-- The times in the replies of a whole run of `SNTP_Main` (fsw/src/sntp.c).
use cfe_sntp.Base.{
  ℕ, ◌≡◌, ◌≢◌, ap, ◌∙◌, sym, [], ◌∷◌, length, pos, ◌==ℤ◌, ==ℤ_iff, Bool-cases, inl, inr, arith,
}
use cfe_sntp.Platform.{Platform}
use cfe_sntp.Platform.Laws.{IsHost, IsCoreSntp, IsAnswers, IsTimestamp}
use cfe_sntp.World.{World}
use cfe_sntp.Clock.Laws.{get_current_sntp_time-IsTimestamp}
use cfe_sntp.Request.{receive_slot, transmit_slot}
use cfe_sntp.Request.Laws.{first_reading, second_reading}
use cfe_sntp.App.{SntpData, sntp_stratum}
use cfe_sntp.App.Main.{Client, poll_command, serve, run_loop, start, finish, sntp_main}
use cfe_sntp.App.Main.Keeps.{sntp_main-keeps}
use cfe_sntp.App.Main.Laws.{read_call, datagram, asked, serve_calls, serve_other, serve-Answered}
use cfe_sntp.App.Replies.Right.{FillsPackets, serve_requests}
use cfe_sntp.App.Replies.Request.{poll_command-Quiet, start-Quiet}
use cfe_sntp.App.Trace.{sends}
use cfe_sntp.App.Replies.Times.{stamps, times, ClockWorks}
use cfe_sntp.App.Replies.Times.Steps.{
  stamps-answer_request, IsTimed, Quiet-IsTimed, stamps-poll_command, stamps-start,
  stamps-serve_other, stamps-asked, time_at_lem,
}

module _ (p : Platform) (host : IsHost p.host) (sntp : IsCoreSntp p.sntp) (answers : IsAnswers p)
    (fills : FillsPackets p) (works : ClockWorks p) where
  -- The times of a reply are the two readings of the clock that its request caused.
  serve-timed :
      (client : Client) (w : World SntpData)
      → IsTimed p w
      → p.answers.ret (read_call p w) ≡ pos p.sntp.packet_base_size
      → times p (sends (serve p client w).1.calls) ≡ stamps p (serve p client w).1.calls
  serve-timed client w timed whole =
      let r = datagram p w in
      let v = asked p client w in
      let filled = fills w.state.sockfd p.sntp.packet_base_size w.calls whole in
      let (reply, right, sent) =
        serve-Answered p host sntp answers client w timed.buffer whole filled.0 filled.1 in
      let received_range : IsTimestamp (first_reading p v).0 =
        get_current_sntp_time-IsTimestamp p answers _ v (answers.unset_time_range v.calls) in
      let sent_range : IsTimestamp (second_reading p v).0 =
        get_current_sntp_time-IsTimestamp p answers _ (first_reading p v).1 received_range in
      let transmit =
        time_at_lem p transmit_slot (second_reading p v).0 reply sent_range right.transmit_seconds
          right.transmit_fractions in
      let receipt =
        time_at_lem p receive_slot (first_reading p v).0 reply received_range right.receive_seconds
          right.receive_fractions in
      let read = stamps-answer_request p works w.state.sockfd sntp_stratum r.addr r.addr_len v in
      let told = stamps-asked p client w in
      ap (times p) sent
      ∙ (λ i. transmit i ∷ receipt i ∷ timed.timed i)
      ∙ (λ i. (second_reading p v).0 ∷ (first_reading p v).0 ∷ sym told i)
      ∙ sym read
      ∙ ap (stamps p) (sym (serve_calls p client w whole))

  serve-IsTimed :
      (client : Client) (w : World SntpData) → IsTimed p w → IsTimed p (serve p client w).1
  serve-IsTimed client w timed =
      let n = p.answers.ret (read_call p w) in
      let size = (serve_requests p client w).1 ∙ timed.buffer in
      elim (Bool-cases (n ==ℤ pos p.sntp.packet_base_size)) [
        | inl good ↦ record {
          buffer = size;
          timed = serve-timed client w timed ((==ℤ_iff n _).0 good);
        }
        | inr bad ↦
            let other : n ≢ pos p.sntp.packet_base_size =
              ground (arith, ==ℤ_iff n (pos p.sntp.packet_base_size)) in
            record {
              buffer = size;
              timed =
                  ap (times p) (serve_other p client w other)
                  ∙ timed.timed
                  ∙ sym (stamps-serve_other p client w other);
            }
      ]

  run_loop-IsTimed : (w : World SntpData) → IsTimed p w → IsTimed p (run_loop p w).1
  unfolding run_loop
  run_loop-IsTimed w timed = record { buffer = timed.buffer; timed = timed.timed }

  finish-IsTimed : (w : World SntpData) → IsTimed p w → IsTimed p (finish p w).1
  unfolding finish
  finish-IsTimed w timed = record { buffer = timed.buffer; timed = timed.timed }

  -- At every point of a run of the app the times in the datagrams sent are what the clock gave,
  -- reading for reading and in order: the transmit time of a reply is the last reading before it,
  -- its receive time the one before that, and no reading is left out or used twice. The receive
  -- buffer has the size of a packet, a read fills the packet whose length it returns, the system
  -- clock does not fail where the build uses it, and the host, the packet's layout and the other
  -- answers are as documented.
  pub sntp_main-times :
      (fuel : ℕ) (w : World SntpData)
      → w.calls ≡ []
      → length w.net_buf ≡ p.sntp.packet_size
      → let h = (sntp_main p fuel w).1.calls in times p (sends h) ≡ stamps p h
  sntp_main-times fuel w fresh size =
      let begun : IsTimed p w = record { buffer = size; timed = rw fresh (λ i. []) } in
      let started = Quiet-IsTimed p w (start p w).1 (start-Quiet p w) (stamps-start p w) begun in
      (sntp_main-keeps p (IsTimed p) run_loop-IsTimed
        (λ v timed.
          Quiet-IsTimed p v (poll_command p v).1 (poll_command-Quiet p v) (stamps-poll_command p v)
            timed)
        serve-IsTimed fuel w finish-IsTimed started).timed
