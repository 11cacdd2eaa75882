-- ===== src/Tests/Data.antt =====
-- The data of the tests: a world before the start, rounds of the loop, and platforms.
use cfe_sntp.Base.{
  true, false, List, [], ◌∷◌, ◌++◌, Bytes, AreBytes, replicate, pos, negsuc, refl, arith,
}
use cfe_sntp.Telemetry.{zero_payload}
use cfe_sntp.Platform.{Platform, Received}
use cfe_sntp.Platform.Example.{rfc_sntp, Round, nobody, play, playing}
use cfe_sntp.Platform.Laws.{IsAnswers}
use cfe_sntp.Request.Wire.{IsRfc}
use cfe_sntp.World.{World}
use cfe_sntp.App.{SntpData}

abbrev pub blank : World SntpData
blank = record {
  state = record {
    cnts = zero_payload;
    hk_tlm = record { telemetry_header = []; payload = zero_payload };
    run_status = 0;
    command_pipe = 0;
    pipe_name = [];
    pipe_depth = 0;
    sockfd = pos 0;
  };
  net_buf = replicate 48 0;
  calls = [];
}

abbrev pub a_request : Received
a_request = record {
  bytes = 0x23 ∷ replicate 39 0 ++ 1 ∷ 2 ∷ 3 ∷ 4 ∷ 5 ∷ 6 ∷ 7 ∷ 8 ∷ [];
  addr = 9 ∷ 9 ∷ [];
  addr_len = 16;
  errno = 0;
}

abbrev pub noop_msg : Bytes
noop_msg = 0x18 ∷ 0x30 ∷ 0 ∷ 0 ∷ 0 ∷ 0 ∷ 0 ∷ 0 ∷ []

abbrev pub short_msg : Bytes
short_msg = 0x18 ∷ 0x30 ∷ 1 ∷ []

abbrev pub hk_msg : Bytes
hk_msg = 0x18 ∷ 0x31 ∷ []

abbrev pub script : List Round
script =
    record { status = pos 0; message = noop_msg; count = pos 48; datagram = a_request }
    ∷ record { status = pos 0; message = short_msg; count = pos 5; datagram = nobody }
    ∷ record { status = pos 0; message = hk_msg; count = negsuc 0; datagram = nobody }
    ∷ []

abbrev pub example : Platform
example = playing true script

-- Every call fails.
abbrev pub broken : Platform
broken = record (playing false []) { answers = record (play []) { ret = λ h. negsuc 0 } }

pub broken-IsAnswers : IsAnswers broken
broken-IsAnswers = record {
  subseconds_range = λ h. omega arith;
  unset_time_range = λ h. omega arith;
  length-unset_packet = λ h. refl;
}

-- A world in which a request stands in the buffer.
abbrev pub holding : World SntpData
holding = record blank { net_buf = a_request.bytes }

pub a_request-AreBytes : AreBytes a_request.bytes
a_request-AreBytes = omega arith

pub rfc_sntp-IsRfc : IsRfc rfc_sntp
rfc_sntp-IsRfc = record {
  offsets = λ f. refl;
  widths = λ f. refl;
  size = refl;
  server = refl;
  number = refl;
  position = refl;
  no_kiss = refl;
}
