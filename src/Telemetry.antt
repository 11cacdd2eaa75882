-- ===== src/Telemetry.antt =====
-- fsw/src/sntp_msg.h: the command codes, and the housekeeping telemetry packet with its counters.
use cfe_sntp.Base.{ℕ, ◌%◌, ◌^◌, Bytes}

abbrev pub noop_cc : ℕ
noop_cc = 0

abbrev pub reset_counters_cc : ℕ
reset_counters_cc = 1

abbrev pub process_cc : ℕ
process_cc = 2

-- `SNTP_NoArgsCmd_t` and the three commands of its format. The header is cFE's, kept as its bytes.
pub record NoArgsCmd : Type 0 where
  pub cmd_header : Bytes

abbrev pub NoopCmd : Type 0
NoopCmd = NoArgsCmd

abbrev pub ResetCountersCmd : Type 0
ResetCountersCmd = NoArgsCmd

abbrev pub ProcessCmd : Type 0
ProcessCmd = NoArgsCmd

-- The additions of C on `uint8` and `uint16`, back in their type.
abbrev pub u8 : ℕ → ℕ
u8 n = n % 2 ^ 8

abbrev pub u16 : ℕ → ℕ
u16 n = n % 2 ^ 16

-- `SNTP_HkTlm_Payload_t`
pub record Payload : Type 0 where
  pub command_error_counter : ℕ  -- uint8
  pub command_counter : ℕ  -- uint8
  pub sntp_req_rcv : ℕ  -- uint16
  pub sntp_bad_requests : ℕ  -- uint16
  pub sntp_invalid_requests : ℕ  -- uint16

-- What `memset(&cnts, 0, sizeof(cnts))` leaves.
abbrev pub zero_payload : Payload
zero_payload = record {
  command_error_counter = 0;
  command_counter = 0;
  sntp_req_rcv = 0;
  sntp_bad_requests = 0;
  sntp_invalid_requests = 0;
}

-- `SNTP_HkTlm_t`. The header is cFE's, and is kept as its bytes.
pub record HkTlm : Type 0 where
  pub telemetry_header : Bytes
  pub payload : Payload
