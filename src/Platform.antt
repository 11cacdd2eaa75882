-- ===== src/Platform.antt =====
-- What the program uses and does not implement, as parameters: the host's byte order, the header
-- of coreSNTP (a git submodule), the constants and messages of cFE, and the answers of the system
-- calls. An answer is a function of the history of calls, the newest first, and so may be any.
mod Calls
pub mod Laws
pub mod Layouts
pub mod Example
pub use Calls.{Call, Arg, Address}
use Prim.Native.String.{String}
use cfe_sntp.Base.{ℕ, Bool, List, ℤ, Bytes}
use cfe_sntp.Telemetry.{HkTlm}

-- Conversions of <arpa/inet.h> and <stdlib.h>, and how the host lays a `uint32_t` out in memory.
pub record Host : Type 0 where
  pub store32 : ℕ → Bytes
  pub load32 : Bytes → ℕ
  pub htonl : ℕ → ℕ
  pub ntohl : ℕ → ℕ
  pub htons : ℕ → ℕ
  pub atoi : String → ℤ
  pub strerror : ℕ → String
  pub sockaddr_in : ℕ → Bytes → Bytes  -- the image of an address, of a port and an IPv4 address

-- `SntpTimestamp_t` has two words.
pub record Timestamp : Type 0 where
  pub seconds : ℕ
  pub fractions : ℕ

-- The members of `SntpPacket_t` that the program names.
pub data Field : Type 0 where
  leap_version_mode stratum ref_id : Field
  origin_seconds origin_fractions : Field
  receive_seconds receive_fractions : Field
  transmit_seconds transmit_fractions : Field

-- What `Sntp_DeserializeResponse` reports, as far as the test client prints it.
pub record ResponseData : Type 0 where
  pub server_time : Timestamp
  pub clock_offset_ms : ℤ

-- core_sntp_serializer.h: the layout of a packet, constants, status codes, the client's codec.
pub record CoreSntp : Type 0 where
  pub offset : Field → ℕ
  pub width : Field → ℕ
  pub packet_size : ℕ  -- sizeof(SntpPacket_t)
  pub packet_base_size : ℕ  -- SNTP_PACKET_BASE_SIZE
  pub mode_server : ℕ
  pub version : ℕ
  pub version_lsb_position : ℕ
  pub kiss_of_death_code_none : ℕ
  pub time_at_unix_epoch_secs : ℕ
  pub fraction_value_per_microsecond : ℕ
  pub success : ℤ
  pub error_bad_parameter : ℤ
  pub error_network_failure : ℤ
  pub no_response_received : ℤ
  pub serialize_request : Timestamp → ℕ → Bytes → ℕ → ℤ × Timestamp × Bytes
  pub deserialize_response : Timestamp → Timestamp → Bytes → ℕ → ℤ × ResponseData

-- cfe.h: constants, and what the program reads of a message or has done to one.
pub record Cfe : Type 0 where
  pub success : ℤ
  pub external_resource_fail : ℤ
  pub app_run : ℕ
  pub app_error : ℕ
  pub cmd_mid_base : ℕ
  pub tlm_mid_base : ℕ
  pub max_api_len : ℕ  -- CFE_MISSION_MAX_API_LEN
  pub command_header_size : ℕ  -- sizeof(CFE_MSG_CommandHeader_t)
  pub hk_tlm_size : ℕ  -- sizeof(SNTP_HkTlm_t)
  pub value_to_msg_id : ℕ → ℕ
  pub msg_id_to_value : ℕ → ℕ
  pub get_msg_id : Bytes → ℕ
  pub get_fcn_code : Bytes → ℕ
  pub get_size : Bytes → ℕ
  pub msg_init : HkTlm → ℕ → ℕ → HkTlm
  pub time_stamp_msg : List Call → HkTlm → HkTlm

-- `CFE_TIME_SysTime_t`
pub record SysTime : Type 0 where
  pub seconds : ℕ
  pub subseconds : ℕ

pub record Timespec : Type 0 where
  pub tv_sec : ℤ
  pub tv_nsec : ℕ

-- What `recvfrom` leaves behind its pointers, and `errno`.
pub record Received : Type 0 where
  pub bytes : Bytes
  pub addr : Bytes
  pub addr_len : ℕ
  pub errno : ℕ

-- The answer to the newest call of a history, and what a variable holds that nothing has set.
pub record Answers : Type 0 where
  pub ret : List Call → ℤ
  pub keeps_running : List Call → Bool
  pub run_status : List Call → ℕ
  pub pipe_id : List Call → ℕ
  pub message : List Call → Bytes
  pub received : List Call → Received
  pub utc : List Call → SysTime
  pub clock : List Call → Timespec
  pub random : List Call → ℕ
  pub inet_addr : List Call → Bytes
  pub unset_time : List Call → Timestamp
  pub unset_packet : List Call → Bytes
  pub unset_addr : List Call → Bytes

pub record Platform : Type 0 where
  pub host : Host
  pub sntp : CoreSntp
  pub cfe : Cfe
  pub answers : Answers
  pub use_cfe_time : Bool  -- SNTP_USE_CFE_TIME
  pub etimedout : ℕ
  pub eagain : ℕ
  pub sockaddr_size : ℕ  -- sizeof(struct sockaddr_in)
