-- ===== src/Tools.antt =====
-- The standalone tools: what their command lines have in common.
pub mod Server
pub mod Client
pub mod Exchange
use Prim.Native.String.{String}
use text.Mathlib.Text.{◌==◌ as str_eq}
use cfe_sntp.Platform.{Platform, Call}
use cfe_sntp.World.{M, pure, ◌>>=◌, ◌>>◌, call}
use cfe_sntp.Base.{Bool, ◌||◌, List, [], ◌∷◌, if◌then◌else◌}

-- One `printf` for each line.
unfoldable pub print_lines {ℓ} : {S : Type ℓ} → Platform → List String → M S (Unit {0})
print_lines p [] = pure tt
print_lines p (line ∷ rest) = call p (Call.os_printf line []) >> print_lines p rest

-- How reading a command line ends: with the settings, with the usage text and EXIT_SUCCESS, with an
-- error, its format and the argument it is about, and EXIT_FAILURE, or with a write past the end of an array.
pub data Parsed (A : Type 0) : Type 0 where
  parsed : A → Parsed A
  usage : Parsed A
  bad : String → String → Parsed A
  overflow : Parsed A

abbrev pub is_help : String → Bool
is_help arg = str_eq arg "--help" || str_eq arg "-h"

-- `strcmp(argv[i], a) == 0 || strcmp(argv[i], b) == 0`
abbrev pub is_one_of : String → String → String → Bool
is_one_of a b arg = str_eq arg a || str_eq arg b

-- The loop over `argv[1..]`, two arguments at a time. `set_option` is its chain of options.
unfoldable pub parse_loop :
    {A : Type 0} → (String → String → A → Parsed A) → List String → A → Parsed A
parse_loop set_option [] settings = parsed settings
parse_loop set_option (arg ∷ []) settings =
    if is_help arg then usage else bad "Unknown option or missing value for option: %s\n" arg
parse_loop set_option (arg ∷ value ∷ rest) settings =
    if is_help arg then usage else elim (set_option arg value settings) [
      | parsed changed ↦ parse_loop set_option rest changed
      | usage ↦ usage
      | bad format culprit ↦ bad format culprit
      | overflow ↦ overflow
    ]
