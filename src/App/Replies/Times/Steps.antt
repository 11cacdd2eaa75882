-- ===== src/App/Replies/Times/Steps.antt =====
-- The readings of the clock through the parts of `SNTP_Main` (fsw/src/sntp.c).
use cfe_sntp.Base.{
  ℕ, ◌≡◌, ◌≢◌, ap, ◌∙◌, sym, List, ◌∷◌, Bytes, length, be32, from_be32, from_be32-be32, ℤ, pos,
  negsuc, ==ℤ_iff, inl, inr, arith,
}
use cfe_sntp.Platform.{Platform, Timestamp, Call}
use cfe_sntp.Platform.Laws.{IsTimestamp}
use cfe_sntp.World.{World, call}
use cfe_sntp.Packet.{Slot, field_bytes}
use cfe_sntp.Clock.{get_current_sntp_time}
use cfe_sntp.Request.{answer_request, send_response}
use cfe_sntp.Request.Laws.{first_reading, second_reading, answer_request_sends}
use cfe_sntp.App.{SntpData}
use cfe_sntp.App.Command.{
  verify_cmd_length, noop, reset_counters, report_housekeeping, process_ground_command,
  process_command_packet,
}
use cfe_sntp.App.Init.Keeps.{IsSetup, start-keeps}
use cfe_sntp.App.Main.{Client, poll_command, receive, handle, serve, start}
use cfe_sntp.App.Main.Laws.{read_call, asked}
use cfe_sntp.App.Replies.{Quiet}
use cfe_sntp.App.Trace.{sends}
use cfe_sntp.App.Replies.Times.{stamps, time_at, times, ClockWorks}

module _ {ℓ} {S : Type ℓ} (p : Platform) (works : ClockWorks p) where
  stamps-get_current_sntp_time :
      (old : Timestamp) (w : World S)
      → let r = get_current_sntp_time p old w in stamps p r.1.calls ≡ r.0 ∷ stamps p w.calls
  unfolding get_current_sntp_time
  stamps-get_current_sntp_time old w = elim works [
    | inl cfe ↦ ground arith
    | inr system ↦
        ground
          (arith, system w.calls, ==ℤ_iff (p.answers.ret (Call.clock_gettime ∷ w.calls)) (negsuc 0))
  ]

  pub stamps-answer_request :
      (fd : ℤ) (level : ℕ) (addr : Bytes) (len : ℕ) (w : World S)
      → stamps p (answer_request p fd level addr len w).1.calls
        ≡ (second_reading p w).0 ∷ (first_reading p w).0 ∷ stamps p w.calls
  unfolding send_response
  stamps-answer_request fd level addr len w =
      let (bytes, run) = answer_request_sends p fd level addr len w in
      let first = stamps-get_current_sntp_time (p.answers.unset_time w.calls) w in
      let second = stamps-get_current_sntp_time (first_reading p w).0 (first_reading p w).1 in
      rw run (ground arith)

module _ (p : Platform) where
  -- The buffer has the size of a packet, and the replies carry what the clock gave.
  pub record IsTimed (w : World SntpData) : Type 0 where
    pub buffer : length w.net_buf ≡ p.sntp.packet_size
    pub timed : times p (sends w.calls) ≡ stamps p w.calls

  pub Quiet-IsTimed :
      (u w : World SntpData)
      → Quiet p u w
      → stamps p w.calls ≡ stamps p u.calls
      → IsTimed u
      → IsTimed w
  Quiet-IsTimed u w quiet same timed = record {
    buffer = ap length quiet.same_buffer ∙ timed.buffer;
    timed = ap (times p) quiet.same_sends ∙ timed.timed ∙ sym same;
  }

  stamps-process_command_packet :
      (msg : Bytes) (w : World SntpData)
      → stamps p (process_command_packet p msg w).1.calls ≡ stamps p w.calls
  unfolding process_command_packet report_housekeeping process_ground_command verify_cmd_length noop
      reset_counters
  stamps-process_command_packet msg w = ground arith

  pub stamps-poll_command :
      (w : World SntpData) → stamps p (poll_command p w).1.calls ≡ stamps p w.calls
  unfolding poll_command
  stamps-poll_command w = grind (arith, stamps-process_command_packet)

  setup-stamps :
      (l : List Timestamp) (c : Call) (w : World SntpData)
      → IsSetup c
      → stamps p w.calls ≡ l
      → stamps p (call p c w).1.calls ≡ l
  setup-stamps l c w setup same = ground arith

  pub stamps-start : (w : World SntpData) → stamps p (start p w).1.calls ≡ stamps p w.calls
  stamps-start w =
      start-keeps p (λ v. stamps p v.calls ≡ stamps p w.calls) (λ s v same. same)
        (setup-stamps (stamps p w.calls)) w (λ i. stamps p w.calls)

  pub stamps-serve_other :
      (client : Client) (u : World SntpData)
      → p.answers.ret (read_call p u) ≢ pos p.sntp.packet_base_size
      → stamps p (serve p client u).1.calls ≡ stamps p u.calls
  unfolding serve receive handle
  stamps-serve_other client u other =
      ground (arith, ==ℤ_iff (p.answers.ret (read_call p u)) (pos p.sntp.packet_base_size))

  pub stamps-asked :
      (client : Client) (u : World SntpData) → stamps p (asked p client u).calls ≡ stamps p u.calls
  unfolding receive
  stamps-asked client u = ground arith

  -- The time that a word of a packet and the next hold in network byte order.
  pub time_at_lem :
      (slot : Slot) (t : Timestamp) (bytes : Bytes)
      → IsTimestamp t
      → field_bytes p slot.seconds_at bytes ≡ be32 t.seconds
      → field_bytes p slot.fractions_at bytes ≡ be32 t.fractions
      → time_at p slot bytes ≡ t
  time_at_lem slot t bytes range seconds fractions = ground (
    arith,
    ap from_be32 seconds ∙ from_be32-be32 t.seconds,
    ap from_be32 fractions ∙ from_be32-be32 t.fractions,
  )
