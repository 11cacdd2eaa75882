-- ===== src/Status.antt =====
-- `sntp_util_status_to_str` of fsw/src/sntp_utils.c.
pub mod Laws
use Prim.Native.String.{String}
use cfe_sntp.Base.{
  ℕ, zero, suc, List, [], ◌∷◌, length, ℤ, pos, negsuc, leb, if◌then◌else◌, Option, none, some,
}
use mathlib.Core.Option

abbrev pub sntp_status_strs : List String
sntp_status_strs =
    "SntpSuccess" ∷ "SntpErrorBadParameter" ∷ "SntpRejectedResponse"
    ∷ "SntpRejectedResponseChangeServer" ∷ "SntpRejectedResponseRetryWithBackoff"
    ∷ "SntpRejectedResponseOtherCode" ∷ "SntpErrorBufferTooSmall" ∷ "SntpInvalidResponse"
    ∷ "SntpZeroPollInterval" ∷ "SntpErrorTimeNotSupported" ∷ "SntpErrorDnsFailure"
    ∷ "SntpErrorNetworkFailure" ∷ "SntpServerNotAuthenticated" ∷ "SntpErrorAuthFailure"
    ∷ "SntpErrorSendTimeout" ∷ "SntpErrorResponseTimeout" ∷ "SntpNoResponseReceived"
    ∷ "SntpErrorContextNotInitialized" ∷ []

-- A read of an array: `none` is a read past its end.
abbrev pub get_elem? {ℓ} : {A : Type ℓ} → List A → ℕ → Option A
get_elem? [] i = none
get_elem? (x ∷ xs) zero = some x
get_elem? (x ∷ xs) (suc i) = get_elem? xs i

-- `none` is an access out of bounds.
unfoldable pub status_to_str : ℤ → Option String
status_to_str (negsuc n) = some "Unknown SNTP status"
status_to_str (pos n) =
    if leb (length sntp_status_strs) n
    then some "Unknown SNTP status"
    else get_elem? sntp_status_strs n
