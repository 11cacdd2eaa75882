-- ===== src/App/Tally/Command.antt =====
-- The counts through the command handlers (fsw/src/sntp.c).
use cfe_sntp.Base.{◌∷◌, ℕ, Bytes, arith, ℤ, Bool-cases, inl, inr}
use cfe_sntp.Platform.{Platform, Call, Address}
use cfe_sntp.Platform.Laws.{IsCfe}
use cfe_sntp.World.{World, M}
use cfe_sntp.App.{SntpData}
use cfe_sntp.App.Command.{
  verify_cmd_length, noop, reset_counters, report_housekeeping, process_ground_command,
  process_command_packet, when_length,
}
use cfe_sntp.App.Tally.{IsExact}

module _ (p : Platform) {w : World SntpData} (exact : IsExact p w) where
  verify_cmd_length-IsExact :
      (msg : Bytes) (expected : ℕ) → IsExact p (verify_cmd_length p msg expected w).1
  unfolding verify_cmd_length
  verify_cmd_length-IsExact msg expected = ground arith

  noop-IsExact : IsExact p (noop p w).1
  unfolding noop
  noop-IsExact = ground arith

  reset_counters-IsExact : IsExact p (reset_counters p w).1
  unfolding reset_counters
  reset_counters-IsExact = ground arith

  report_housekeeping-IsExact : IsCfe p → IsExact p (report_housekeeping p w).1
  unfolding report_housekeeping
  report_housekeeping-IsExact cfe = ground (
    arith,
    cfe.payload-time_stamp_msg (Call.time_stamp_msg Address.hk_tlm ∷ w.calls)
        (record (w.state.hk_tlm) { payload = w.state.cnts }),
  )

module _ (p : Platform) (cfe : IsCfe p) where
  when_length-IsExact :
      (msg : Bytes) (handler : M SntpData ℤ)
      → ((v : World SntpData) → IsExact p v → IsExact p (handler v).1)
      → (w : World SntpData) → IsExact p w
      → IsExact p (when_length p msg handler w).1
  when_length-IsExact msg handler keeps w exact =
      let after = verify_cmd_length-IsExact p exact msg p.cfe.command_header_size in
      elim (Bool-cases (verify_cmd_length p msg p.cfe.command_header_size w).0) [
        | inl valid ↦ rw valid (keeps _ after)
        | inr wrong ↦ rw wrong after
      ]

  process_ground_command-IsExact :
      (msg : Bytes) (w : World SntpData)
      → IsExact p w
      → IsExact p (process_ground_command p msg w).1
  unfolding process_ground_command
  process_ground_command-IsExact msg w exact = grind (
    arith,
    when_length-IsExact msg (noop p) (λ v e. noop-IsExact p e) w exact,
    when_length-IsExact msg (reset_counters p) (λ v e. reset_counters-IsExact p e) w exact,
  )

  pub process_command_packet-IsExact :
      (msg : Bytes) (w : World SntpData)
      → IsExact p w
      → IsExact p (process_command_packet p msg w).1
  unfolding process_command_packet
  process_command_packet-IsExact msg w exact =
      ground
        (arith, process_ground_command-IsExact msg w exact, report_housekeeping-IsExact p exact cfe)
