-- ===== src/Clock.antt =====
-- `getCurrentSntpTime` of fsw/src/sntp_utils.c in both its builds, and the conversions between
-- milliseconds and fractions of fsw/src/core_sntp_config.h.
pub mod Laws
use cfe_sntp.Base.{ℕ, ◌+◌, ◌*◌, ◌/◌, ◌%◌, ◌^◌, Bool, ℤ, negsuc, ◌==ℤ◌, to_u32, if◌then◌else◌}
use cfe_sntp.Platform.{Platform, Timestamp, SysTime, Timespec, Call}
use cfe_sntp.World.{M, pure, ◌>>=◌, ◌>>◌, issue, call, observe}

module _ (p : Platform) where
  -- MILLISECONDS_TO_SNTP_FRACTIONS, in `long`.
  unfoldable pub milliseconds_to_sntp_fractions : ℕ → ℕ
  milliseconds_to_sntp_fractions ms = ms * 1000 * p.sntp.fraction_value_per_microsecond

  -- FRACTIONS_TO_MS. The divisor is `unsigned`.
  unfoldable pub fractions_to_ms : ℕ → ℕ
  fractions_to_ms fractions = fractions / (p.sntp.fraction_value_per_microsecond * 1000 % 2 ^ 32)

  -- The assignments to `sntp`, from the time that cFE gives.
  unfoldable pub of_sys_time : SysTime → Timestamp
  of_sys_time time = record {
    seconds = (time.seconds + p.sntp.time_at_unix_epoch_secs) % 2 ^ 32;
    fractions = time.subseconds;
  }

  -- The assignments to `sntp`, from the time that the system clock gives.
  unfoldable pub of_timespec : Timespec → Timestamp
  unfolding milliseconds_to_sntp_fractions
  of_timespec time = record {
    seconds = (to_u32 time.tv_sec + p.sntp.time_at_unix_epoch_secs) % 2 ^ 32;
    fractions = milliseconds_to_sntp_fractions (time.tv_nsec / 1000000) % 2 ^ 32;
  }

module _ {ℓ} {S : Type ℓ} (p : Platform) where
  -- The build with SNTP_USE_CFE_TIME.
  unfoldable pub get_cfe_time : Timestamp → M S Timestamp
  unfolding of_sys_time
  get_cfe_time sntp = do time ← issue p.answers.utc Call.get_utc; pure (of_sys_time p time)

  -- The build without it. After a failure `*sntp` is what it was.
  unfoldable pub get_system_time : Timestamp → M S Timestamp
  unfolding of_timespec
  get_system_time sntp = do
    status ← call p Call.clock_gettime
    time ← observe p.answers.clock
    if status ==ℤ negsuc 0
        then (call p (Call.perror "Error getting current time") >> pure sntp)
        else pure (of_timespec p time)

  -- `getCurrentSntpTime(&sntp)`: from the old value of `*sntp` to the new one.
  unfoldable pub get_current_sntp_time : Timestamp → M S Timestamp
  unfolding get_cfe_time get_system_time
  get_current_sntp_time sntp = if p.use_cfe_time then get_cfe_time sntp else get_system_time sntp
