-- ===== src/Platform/Calls.antt =====
-- The calls that leave the program, with the arguments that decide what they do.
use Prim.Native.String.{String}
use cfe_sntp.Base.{ℕ, Bool, List, ℤ, Bytes}
use cfe_sntp.Telemetry.{HkTlm}

-- An argument of a message: a number, a signed number or a text.
pub data Arg : Type 0 where
  nat : ℕ → Arg
  int : ℤ → Arg
  text : String → Arg

-- The address of a message: that of `SNTP_Data.HkTlm`, which its first member has too, or another.
pub data Address : Type 0 where
  hk_tlm : Address
  elsewhere : ℕ → Address

pub data Call : Type 0 where
  -- cFE
  perf_log_entry : ℕ → Call
  perf_log_exit : ℕ → Call
  run_loop : ℕ → Call
  exit_app : ℕ → Call
  evs_register : Call
  -- an event of type INFORMATION or ERROR: its id, its format and its arguments
  send_information : ℕ → String → List Arg → Call
  send_error : ℕ → String → List Arg → Call
  write_to_sys_log : String → List Arg → Call
  create_pipe : ℕ → Bytes → Call
  subscribe : ℕ → ℕ → Call
  poll_buffer : ℕ → Call
  time_stamp_msg : Address → Call
  -- the message, whether its sequence count is incremented, and what it holds
  transmit_msg : Address → Bool → HkTlm → Call
  -- CFE_TBL_Register, _Manage, _GetAddress and _GetInfo, and SAMPLE_LIB_Function: only the unit tests
  -- name them
  register_table : Call
  manage_table : Call
  get_table_address : Call
  get_table_info : Call
  sample_lib_function : Call
  get_utc : Call
  -- the C library and the kernel
  -- OS_printf, or printf where OSAL is not built in
  os_printf : String → List Arg → Call
  print_error : String → List Arg → Call  -- on stderr
  perror : String → Call
  clock_gettime : Call
  random : Call
  socket : Call
  bind : ℤ → ℕ → Call  -- the descriptor, and the port in network order
  setsockopt_rcvtimeo : ℤ → ℕ → Call  -- the descriptor, and the timeout in seconds
  close : ℤ → Call
  recvfrom : ℤ → ℕ → Call
  sendto : ℤ → Bytes → Bytes → ℕ → Call
  inet_pton : String → Call
  seed_random : Call
  exit_process : ℕ → Call
  abort : Call  -- a failed assertion
