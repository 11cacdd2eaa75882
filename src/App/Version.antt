-- ===== src/App/Version.antt =====
-- fsw/src/sntp_version.h: the texts of the version, which the startup event and NOOP report.
use Prim.Native.String.{String, ◌++◌}
use cfe_sntp.Base.{ℕ}

-- SNTP_BUILD_NUMBER, whose digits alone are used.
abbrev pub build_number : String
build_number = "21"

abbrev pub build_baseline : String
build_baseline = "v1.3.0-rc4"

abbrev pub major_version : ℕ
major_version = 1

abbrev pub minor_version : ℕ
minor_version = 1

abbrev pub revision : ℕ
revision = 99

abbrev pub mission_rev : ℕ
mission_rev = 0xff

abbrev pub app_version : String
app_version = build_baseline ++ ("+dev" ++ build_number)

abbrev pub version_string : String
version_string =
    " SNTP App DEVELOPMENT BUILD " ++ (app_version ++ ", Last Official Release: v1.1.0")
