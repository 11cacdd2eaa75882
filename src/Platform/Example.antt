-- ===== src/Platform/Example.antt =====
-- Platforms for the tests: an environment that plays a list of rounds, with a small cFE.
pub use cfe_sntp.Platform.Layouts.{
  little_endian, big_endian, little_endian-IsHost, big_endian-IsHost, rfc_sntp, rfc_sntp-IsCoreSntp,
}
use cfe_sntp.Base.{
  ℕ, zero, suc, ◌+◌, ◌-◌, ◌*◌, refl, Bool, false, List, [], ◌∷◌, Bytes, length, replicate, ◌==◌,
  ◌&&◌, ℤ, pos, negsuc, ltb, arith,
}
use cfe_sntp.Telemetry.{zero_payload}
use cfe_sntp.Platform.{Platform, Cfe, Answers, Received, Call}
use cfe_sntp.Platform.Laws.{IsAnswers, IsCfe}
use cfe_sntp.App.Trace.{tests}

-- One round of the app's loop: what the poll returns, and what `recvfrom` returns.
pub record Round : Type 0 where
  pub status : ℤ
  pub message : Bytes
  pub count : ℤ
  pub datagram : Received

abbrev pub nobody : Received
nobody = record { bytes = []; addr = []; addr_len = 16; errno = 11 }

abbrev idle : Round
idle = record { status = negsuc 0; message = []; count = negsuc 0; datagram = nobody }

abbrev pub nth : List Round → ℕ → Round
nth [] n = idle
nth (r ∷ rs) zero = r
nth (r ∷ rs) (suc n) = nth rs n

-- The rounds begun so far.
abbrev pub polls : List Call → ℕ
polls [] = 0
polls (Call.poll_buffer _ ∷ h) = suc (polls h)
polls (_ ∷ h) = polls h

abbrev current : List Round → List Call → Round
current script h = nth script (polls h - 1)

abbrev ret_of : List Round → List Call → ℤ
ret_of script (Call.poll_buffer pipe ∷ h) = (nth script (polls h)).status
ret_of script (Call.recvfrom fd size ∷ h) = (current script h).count
ret_of script (Call.socket ∷ h) = pos 5
ret_of script _ = pos 0

-- The run loop goes on while the status is that of a running app and the script has rounds left.
abbrev continues : List Round → List Call → Bool
continues script (Call.run_loop status ∷ h) = status == 1 && ltb (tests h) (length script)
continues script _ = false

abbrev status_after : List Call → ℕ
status_after (Call.run_loop status ∷ h) = status
status_after _ = 1

-- The rounds of the script are played, and then the app is told to stop.
abbrev pub play : List Round → Answers
play script = record {
  ret = ret_of script;
  keeps_running = continues script;
  run_status = status_after;
  pipe_id = λ h. 7;
  message = λ h. (current script h).message;
  received = λ h. (current script h).datagram;
  utc = λ h. record { seconds = 1000 + length h; subseconds = 500 };
  clock = λ h. record { tv_sec = pos (1000 + length h); tv_nsec = 250000000 };
  random = λ h. 42;
  inet_addr = λ h. 127 ∷ 0 ∷ 0 ∷ 1 ∷ [];
  unset_time = λ h. record { seconds = 0xdead; fractions = 0xbeef };
  unset_packet = λ h. replicate 48 0xaa;
  unset_addr = λ h. replicate 16 0xcc;
}

abbrev first_pair : Bytes → ℕ
first_pair (a ∷ b ∷ bs) = a * 256 + b
first_pair _ = 0

abbrev third : Bytes → ℕ
third (a ∷ b ∷ c ∷ bs) = c
third _ = 0

-- A message begins with its id, and its third byte is the function code.
abbrev pub small_cfe : Cfe
small_cfe = record {
  success = pos 0;
  external_resource_fail = negsuc 14;
  app_run = 1;
  app_error = 3;
  cmd_mid_base = 0x1800;
  tlm_mid_base = 0x0800;
  max_api_len = 20;
  command_header_size = 8;
  hk_tlm_size = 24;
  value_to_msg_id = λ v. v;
  msg_id_to_value = λ v. v;
  get_msg_id = first_pair;
  get_fcn_code = third;
  get_size = length;
  msg_init =
      λ packet mid size. record { telemetry_header = mid ∷ size ∷ []; payload = zero_payload };
  time_stamp_msg = λ h packet. packet;
}

abbrev pub playing : Bool → List Round → Platform
playing use_cfe_time script = record {
  host = little_endian;
  sntp = rfc_sntp;
  cfe = small_cfe;
  answers = play script;
  use_cfe_time = use_cfe_time;
  etimedout = 110;
  eagain = 11;
  sockaddr_size = 16;
}

module _ (use_cfe_time : Bool) (script : List Round) where
  pub playing-IsAnswers : IsAnswers (playing use_cfe_time script)
  playing-IsAnswers = record {
    subseconds_range = λ h. omega arith;
    unset_time_range = λ h. omega arith;
    length-unset_packet = λ h. refl;
  }

  pub playing-IsCfe : IsCfe (playing use_cfe_time script)
  playing-IsCfe = record {
    payload-time_stamp_msg = λ h t. refl;
    stops = λ status h other. ground arith;
    error_stops = omega arith;
  }
