-- ===== src/App/Replies/Times.antt =====
-- The times in the replies of `process_sntp_request` (fsw/src/sntp.c), and those that the clock gave.
pub mod Steps
pub mod Main
use cfe_sntp.Base.{◌≡◌, ◌≢◌, ◌⊎◌, true, List, [], ◌∷◌, Bytes, from_be32, negsuc}
use cfe_sntp.Platform.{Platform, Timestamp, Call}
use cfe_sntp.Packet.{Slot, field_bytes}
use cfe_sntp.Clock.{of_sys_time, of_timespec}
use cfe_sntp.Request.{receive_slot, transmit_slot}
use cfe_sntp.App.Trace.{Datagram}

module _ (p : Platform) where
  -- What the clock gave, the last reading first.
  abbrev pub stamps : List Call → List Timestamp
  stamps [] = []
  stamps (Call.get_utc ∷ h) = of_sys_time p (p.answers.utc (Call.get_utc ∷ h)) ∷ stamps h
  stamps (Call.clock_gettime ∷ h) =
      of_timespec p (p.answers.clock (Call.clock_gettime ∷ h)) ∷ stamps h
  stamps (_ ∷ h) = stamps h

  abbrev pub time_at : Slot → Bytes → Timestamp
  time_at slot bytes = record {
    seconds = from_be32 (field_bytes p slot.seconds_at bytes);
    fractions = from_be32 (field_bytes p slot.fractions_at bytes);
  }

  -- The times in the datagrams sent, the last one first.
  abbrev pub times : List Datagram → List Timestamp
  times [] = []
  times (d ∷ ds) = time_at transmit_slot d.bytes ∷ time_at receive_slot d.bytes ∷ times ds

  -- cFE's clock cannot fail; the system clock does not.
  abbrev pub ClockWorks : Type 0
  ClockWorks =
      (p.use_cfe_time ≡ true)
      ⊎ ((h : List Call) → p.answers.ret (Call.clock_gettime ∷ h) ≢ negsuc 0)
