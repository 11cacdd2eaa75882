-- ===== src/Request/Order.antt =====
-- The two readings of the clock in `process_sntp_request` (fsw/src/sntp.c), compared.
use cfe_sntp.Base.{
  ℕ, ◌+◌, ◌*◌, ◌^◌, ◌≤◌, ◌<◌, ◌≡◌, ◌≢◌, ◌⊎◌, true, false, ◌∷◌, List, Bytes, length, AreBytes, ℤ,
  pos, negsuc, ==ℤ_iff, ◌==ℤ◌, Bool-cases, inl, inr, ap, sym, subst, arith,
}
use cfe_sntp.Platform.{Platform, Timestamp, SysTime, Timespec, Call}
use cfe_sntp.Platform.Laws.{IsHost, IsCoreSntp, IsAnswers, IsTimestamp}
use cfe_sntp.World.{World}
use cfe_sntp.Clock.{get_current_sntp_time, of_sys_time, of_timespec, milliseconds_to_sntp_fractions}
use cfe_sntp.Clock.Laws.{get_current_sntp_time-IsTimestamp, get_current_sntp_time_failed}
use cfe_sntp.Request.{answer_request, send_response, receive_slot, transmit_slot}
use cfe_sntp.App.Replies.Times.{time_at}
use cfe_sntp.App.Replies.Times.Steps.{time_at_lem}
use cfe_sntp.Request.Laws.{first_reading, second_reading, answer_request-IsReply}
use cfe_sntp.Request.Reply.{IsReply}

-- A timestamp as one number, in units of 2^-32 s.
abbrev pub fixed_point : Timestamp → ℕ
fixed_point t = t.seconds * 2 ^ 32 + t.fractions

-- An instant of cFE's clock, in the same units, and one of the system clock, in nanoseconds.
abbrev pub instant : SysTime → ℕ
instant t = t.seconds * 2 ^ 32 + t.subseconds

-- The system clock gave a time of the years 1970 to 2036.
pub record IsInEra (p : Platform) (seconds : ℕ) (t : Timespec) : Type 0 where
  pub after_epoch : t.tv_sec ≡ pos seconds
  pub before_wrap : seconds + p.sntp.time_at_unix_epoch_secs < 2 ^ 32
  pub nsec_range : t.tv_nsec < 1000000000

module _ (p : Platform) where
  of_sys_time_order :
      (a b : SysTime)
      → a.subseconds < 2 ^ 32
      → b.subseconds < 2 ^ 32
      → instant a ≤ instant b
      → b.seconds + p.sntp.time_at_unix_epoch_secs < 2 ^ 32
      → fixed_point (of_sys_time p a) ≤ fixed_point (of_sys_time p b)
  unfolding of_sys_time
  of_sys_time_order a b range range' order era = omega arith

  of_timespec_order :
      (m n : ℕ) (a b : Timespec)
      → p.sntp.fraction_value_per_microsecond ≡ 4295
      → IsInEra p m a
      → IsInEra p n b
      → m * 1000000000 + a.tv_nsec ≤ n * 1000000000 + b.tv_nsec
      → fixed_point (of_timespec p a) ≤ fixed_point (of_timespec p b)
  unfolding of_timespec milliseconds_to_sntp_fractions
  of_timespec_order m n a b scale era era' order =
      rw (scale, era.after_epoch, era'.after_epoch)
        (omega (arith, era.before_wrap, era'.before_wrap, era.nsec_range, era'.nsec_range))

module _ {ℓ} {S : Type ℓ} (p : Platform) where
  get_current_sntp_time_read :
      (old : Timestamp) (w : World S)
      → p.use_cfe_time ≡ false
      → p.answers.ret (Call.clock_gettime ∷ w.calls) ≢ negsuc 0
      → get_current_sntp_time p old w ≡ (
        of_timespec p (p.answers.clock (Call.clock_gettime ∷ w.calls)),
        record w { calls = Call.clock_gettime ∷ w.calls },
      )
  unfolding get_current_sntp_time
  get_current_sntp_time_read old w build succeeds =
      grind (arith, ==ℤ_iff (p.answers.ret (Call.clock_gettime ∷ w.calls)) (negsuc 0))

module _ {ℓ} {S : Type ℓ} (p : Platform) (w : World S) where
  abbrev utc_asked : List Call
  utc_asked = Call.get_utc ∷ w.calls

  abbrev clock_asked : List Call
  clock_asked = Call.clock_gettime ∷ w.calls

  -- Between the two readings that the handler makes, cFE's clock does not run back.
  pub record CfeSteady : Type 0 where
    pub cfe_build : p.use_cfe_time ≡ true
    pub ordered :
        instant (p.answers.utc utc_asked) ≤ instant (p.answers.utc (Call.get_utc ∷ utc_asked))
    pub before_wrap :
        (p.answers.utc (Call.get_utc ∷ utc_asked)).seconds + p.sntp.time_at_unix_epoch_secs < 2 ^ 32

  -- The system clock is read at the first time, and at the second it fails or does not run back.
  pub record SystemSteady : Type 0 where
    pub system_build : p.use_cfe_time ≡ false
    pub scale : p.sntp.fraction_value_per_microsecond ≡ 4295
    pub first_succeeds : p.answers.ret clock_asked ≢ negsuc 0
    pub start : ℕ
    pub start_InEra : IsInEra p start (p.answers.clock clock_asked)
    pub second :
        p.answers.ret (Call.clock_gettime ∷ clock_asked) ≢ negsuc 0
        → ((end : ℕ) × IsInEra p end (p.answers.clock (Call.clock_gettime ∷ clock_asked))
            × (start * 1000000000 + (p.answers.clock clock_asked).tv_nsec
                ≤ end * 1000000000 + (p.answers.clock (Call.clock_gettime ∷ clock_asked)).tv_nsec))

  readings_order_cfe :
      IsAnswers p
      → CfeSteady
      → fixed_point (first_reading p w).0 ≤ fixed_point (second_reading p w).0
  unfolding get_current_sntp_time
  readings_order_cfe answers steady = rw (steady.cfe_build) (
      of_sys_time_order p _ _ (answers.subseconds_range _) (answers.subseconds_range _)
        steady.ordered steady.before_wrap)

  readings_order_system :
      SystemSteady → fixed_point (first_reading p w).0 ≤ fixed_point (second_reading p w).0
  readings_order_system steady =
      let a = p.answers.clock clock_asked in
      let b = p.answers.clock (Call.clock_gettime ∷ clock_asked) in
      let v : World S = record w { calls = clock_asked } in
      let first =
        get_current_sntp_time_read p (p.answers.unset_time w.calls) w steady.system_build
          steady.first_succeeds in
      let status = p.answers.ret (Call.clock_gettime ∷ clock_asked) in
      rw first (elim (Bool-cases (status ==ℤ negsuc 0)) [
        | inl failed ↦
            rw
              (get_current_sntp_time_failed p (of_timespec p a) v steady.system_build
                ((==ℤ_iff status (negsuc 0)).0 failed))
              (omega arith)
        | inr read ↦
            let succeeds : status ≢ negsuc 0 = grind (arith, ==ℤ_iff status (negsuc 0)) in
            let (end, era, order) = steady.second succeeds in
            rw (get_current_sntp_time_read p (of_timespec p a) v steady.system_build succeeds)
              (of_timespec_order p steady.start end a b steady.scale steady.start_InEra era order)
      ])

module _ {ℓ} {S : Type ℓ} (p : Platform) (host : IsHost p.host) (sntp : IsCoreSntp p.sntp)
    (answers : IsAnswers p) (w : World S) where
  -- The handler sends a right reply with its two readings of the clock, and the receive time that
  -- stands in the bytes of this reply is not later than the transmit time that stands there, in either
  -- build, if the clock does not run back between its two readings and stays before the wrap of 2036;
  -- the system clock may fail at the second reading, but not at the first. The buffer holds the bytes
  -- of a packet; the host, the packet's layout and the answers are as documented.
  pub answer_request_order :
      CfeSteady p w ⊎ SystemSteady p w
      → length w.net_buf ≡ p.sntp.packet_size
      → AreBytes w.net_buf
      → (sockfd : ℤ) (level : ℕ) (addr : Bytes) (len : ℕ)
      → (reply : Bytes) × IsReply p level w.net_buf
          (first_reading p w).0
          (second_reading p w).0
          reply
        × (fixed_point (time_at p receive_slot reply) ≤ fixed_point (time_at p transmit_slot reply))
        × (answer_request p sockfd level addr len w
            ≡ send_response p sockfd reply addr len (second_reading p w).1)
  answer_request_order steady size bytes sockfd level addr len =
      let (reply, right, run) =
        answer_request-IsReply p host sntp answers w size bytes sockfd level addr len in
      let received_range : IsTimestamp (first_reading p w).0 =
        get_current_sntp_time-IsTimestamp p answers _ w (answers.unset_time_range w.calls) in
      let sent_range : IsTimestamp (second_reading p w).0 =
        get_current_sntp_time-IsTimestamp p answers _ (first_reading p w).1 received_range in
      let receive =
        time_at_lem p receive_slot (first_reading p w).0 reply received_range right.receive_seconds
          right.receive_fractions in
      let transmit =
        time_at_lem p transmit_slot (second_reading p w).0 reply sent_range right.transmit_seconds
          right.transmit_fractions in
      let order : fixed_point (first_reading p w).0 ≤ fixed_point (second_reading p w).0 =
        elim steady [
          | inl cfe ↦ readings_order_cfe p w answers cfe
          | inr system ↦ readings_order_system p w system
        ] in
      (
        reply,
        right,
        subst (λ t. t ≤ fixed_point (time_at p transmit_slot reply)) (ap fixed_point (sym receive))
            (subst (λ t. fixed_point (first_reading p w).0 ≤ t) (ap fixed_point (sym transmit))
              order),
        run,
      )
