-- ===== src/Request/Times.antt =====
-- Which times a reply carries, in each of the two builds.
use cfe_sntp.Base.{
  ℕ, ◌≡◌, subst, ◌∙◌, true, false, ◌∷◌, List, Bytes, length, AreBytes, ℤ, negsuc, arith,
}
use cfe_sntp.Platform.{Platform, Timestamp, Call}
use cfe_sntp.Platform.Laws.{IsHost, IsCoreSntp, IsAnswers}
use cfe_sntp.World.{World}
use cfe_sntp.Clock.{get_current_sntp_time, of_sys_time}
use cfe_sntp.Clock.Laws.{get_current_sntp_time_failed}
use cfe_sntp.Request.{answer_request, send_response}
use cfe_sntp.Request.Laws.{first_reading, second_reading, answer_request-IsReply}
use cfe_sntp.Request.Reply.{IsReply}

module _ {ℓ} {S : Type ℓ} (p : Platform) (w : World S) where
  -- The times that cFE gives to the two calls of the handler.
  abbrev pub received_at : Timestamp
  received_at = of_sys_time p (p.answers.utc (Call.get_utc ∷ w.calls))

  abbrev pub sent_at : Timestamp
  sent_at = of_sys_time p (p.answers.utc (Call.get_utc ∷ Call.get_utc ∷ w.calls))

  readings_cfe :
      p.use_cfe_time ≡ true
      → ((first_reading p w).0 ≡ received_at) × ((second_reading p w).0 ≡ sent_at)
  unfolding get_current_sntp_time
  readings_cfe build = ground arith

  -- What a local variable of the handler held before anything set it.
  abbrev pub never_set : Timestamp
  never_set = p.answers.unset_time w.calls

  abbrev pub IsBroken : Type 0
  IsBroken = (h : List Call) → p.answers.ret (Call.clock_gettime ∷ h) ≡ negsuc 0

  readings_broken :
      p.use_cfe_time ≡ false
      → IsBroken
      → ((first_reading p w).0 ≡ never_set) × ((second_reading p w).0 ≡ never_set)
  readings_broken build broken =
      let first = get_current_sntp_time_failed p never_set w build (broken w.calls) in
      let v = (first_reading p w).1 in
      (first, get_current_sntp_time_failed p (first_reading p w).0 v build (broken v.calls) ∙ first)

module _ {ℓ} {S : Type ℓ} (p : Platform) (host : IsHost p.host) (sntp : IsCoreSntp p.sntp)
    (answers : IsAnswers p) (w : World S) (size : length w.net_buf ≡ p.sntp.packet_size)
    (bytes : AreBytes w.net_buf) (sockfd : ℤ) (level : ℕ) (addr : Bytes) (len : ℕ) where
  -- The handler sends a right reply with the times `received` and `sent`.
  abbrev pub RepliesWith : Timestamp → Timestamp → Type ℓ
  RepliesWith received sent =
      (reply : Bytes) × IsReply p level w.net_buf received sent reply
      × (answer_request p sockfd level addr len w
          ≡ send_response p sockfd reply addr len (second_reading p w).1)

  replies : RepliesWith (first_reading p w).0 (second_reading p w).0
  replies = answer_request-IsReply p host sntp answers w size bytes sockfd level addr len

  -- In the build with cFE's time a reply carries the times that cFE gave at arrival and at sending:
  -- nothing that the stack held before gets into a reply. The buffer holds the bytes of a packet;
  -- the host, the packet's layout and the answers are as documented.
  pub answer_request_cfe_time : p.use_cfe_time ≡ true → RepliesWith (received_at p w) (sent_at p w)
  answer_request_cfe_time build =
      let (first, second) = readings_cfe p w build in
      subst (λ t. RepliesWith (received_at p w) t) second
        (subst (λ t. RepliesWith t (second_reading p w).0) first replies)

  -- In the build with the system's clock, while that clock fails, a reply is sent all the same, and
  -- both its times are what the local variable held on the stack before anything set it. The buffer
  -- holds the bytes of a packet; the host, the packet's layout and the answers are as documented.
  pub answer_request_broken_clock :
      p.use_cfe_time ≡ false → IsBroken p w → RepliesWith (never_set p w) (never_set p w)
  answer_request_broken_clock build broken =
      let (first, second) = readings_broken p w build broken in
      subst (λ t. RepliesWith (never_set p w) t) second
        (subst (λ t. RepliesWith t (second_reading p w).0) first replies)
