-- ===== src/App/Trace/Command.antt =====
-- The datagrams of the command handlers (fsw/src/sntp.c).
use cfe_sntp.Base.{Bytes, arith, ◌≡◌}
use cfe_sntp.Platform.{Platform}
use cfe_sntp.World.{World}
use cfe_sntp.App.{SntpData}
use cfe_sntp.App.Command.{
  verify_cmd_length, noop, reset_counters, report_housekeeping, process_ground_command,
  process_command_packet,
}
use cfe_sntp.App.Main.{poll_command}
use cfe_sntp.App.Trace.{Silent}

-- What a command leaves alone in the state of the app.
pub record KeepsSetup (w w' : World SntpData) : Type 0 where
  pub same_status : w'.state.run_status ≡ w.state.run_status
  pub same_pipe : w'.state.command_pipe ≡ w.state.command_pipe
  pub same_socket : w'.state.sockfd ≡ w.state.sockfd

module _ (p : Platform) where
  process_ground_command-Silent :
      (msg : Bytes) (w : World SntpData) → Silent w (process_ground_command p msg w).1
  unfolding process_ground_command verify_cmd_length noop reset_counters
  process_ground_command-Silent msg w = ground arith

  process_ground_command-KeepsSetup :
      (msg : Bytes) (w : World SntpData) → KeepsSetup w (process_ground_command p msg w).1
  unfolding process_ground_command verify_cmd_length noop reset_counters
  process_ground_command-KeepsSetup msg w = ground arith

  process_command_packet-Silent :
      (msg : Bytes) (w : World SntpData) → Silent w (process_command_packet p msg w).1
  unfolding process_command_packet report_housekeeping
  process_command_packet-Silent msg w = ground (arith, process_ground_command-Silent msg w)

  pub process_command_packet-KeepsSetup :
      (msg : Bytes) (w : World SntpData) → KeepsSetup w (process_command_packet p msg w).1
  unfolding process_command_packet report_housekeeping
  process_command_packet-KeepsSetup msg w = ground (arith, process_ground_command-KeepsSetup msg w)

  pub poll_command-Silent : (w : World SntpData) → Silent w (poll_command p w).1
  unfolding poll_command
  poll_command-Silent w = grind (arith, process_command_packet-Silent)

  pub poll_command-KeepsSetup : (w : World SntpData) → KeepsSetup w (poll_command p w).1
  unfolding poll_command
  poll_command-KeepsSetup w = grind (arith, process_command_packet-KeepsSetup)
