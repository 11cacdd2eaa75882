-- ===== src/Tools/Client/Laws.antt =====
-- The standalone client: its options, and the names that do not fit.
use mathlib.Core.List.{foldl}
use Prim.Native.String.{String}
use cfe_sntp.Base.{
  Bool, ◌<◌, ◌≡◌, refl, ◌∙◌, true, false, List, [], ◌∷◌, codes, length, to_u16, arith,
}
use cfe_sntp.Platform.{Platform}
use cfe_sntp.Tools.{parsed, overflow, parse_loop}
use cfe_sntp.Tools.Client.{ClientArgs, name_size, copy_name, set_client_option, parse_client_args}

-- An option of the client, in its short or its long form, with the text of its value.
pub data ClientOption : Type 0 where
  server_option ip_option port_option client_port_option : Bool → String → ClientOption

-- A name fits if its text and the zero at its end do.
abbrev pub Fits : ClientOption → Type 0
Fits (server_option short text) = length (codes text) < name_size
Fits (ip_option short text) = length (codes text) < name_size
Fits _ = Unit

abbrev pub AllFit : List ClientOption → Type 0
AllFit [] = Unit
AllFit (o ∷ os) = Fits o × AllFit os

abbrev pub words_of : ClientOption → List String → List String
words_of (server_option true text) rest = "-s" ∷ text ∷ rest
words_of (server_option false text) rest = "--server" ∷ text ∷ rest
words_of (ip_option true text) rest = "-ip" ∷ text ∷ rest
words_of (ip_option false text) rest = "--ip" ∷ text ∷ rest
words_of (port_option true text) rest = "-p" ∷ text ∷ rest
words_of (port_option false text) rest = "--port" ∷ text ∷ rest
words_of (client_port_option true text) rest = "-cp" ∷ text ∷ rest
words_of (client_port_option false text) rest = "--client-port" ∷ text ∷ rest

-- The arguments for the options, and then the arguments `rest`.
abbrev pub command_line : List ClientOption → List String → List String
command_line [] rest = rest
command_line (o ∷ os) rest = words_of o (command_line os rest)

module _ (p : Platform) where
  abbrev pub chosen : ClientArgs → ClientOption → ClientArgs
  chosen a (server_option short text) = record a { server_name = text }
  chosen a (ip_option short text) = record a { server_ip = text }
  chosen a (port_option short text) = record a { port = to_u16 (p.host.atoi text) }
  chosen a (client_port_option short text) = record a { client_port = to_u16 (p.host.atoi text) }

  parse_option :
      (o : ClientOption) (rest : List String) (a : ClientArgs)
      → Fits o
      → parse_client_args p (words_of o rest) a ≡ parse_client_args p rest (chosen a o)
  unfolding parse_client_args parse_loop set_client_option copy_name
  parse_option (server_option true text) rest a fits = ground arith
  parse_option (server_option false text) rest a fits = ground arith
  parse_option (ip_option true text) rest a fits = ground arith
  parse_option (ip_option false text) rest a fits = ground arith
  parse_option (port_option true text) rest a fits = refl
  parse_option (port_option false text) rest a fits = refl
  parse_option (client_port_option true text) rest a fits = refl
  parse_option (client_port_option false text) rest a fits = refl

  parse_options :
      (os : List ClientOption) (rest : List String) (a : ClientArgs)
      → AllFit os
      → parse_client_args p (command_line os rest) a ≡ parse_client_args p rest (foldl chosen a os)
  parse_options [] rest a fit = refl
  parse_options (o ∷ os) rest a fit =
      parse_option o (command_line os rest) a fit.0 ∙ parse_options os rest (chosen a o) fit.1

  -- Any options in any order are read, if every name has at most 63 bytes. The last of a kind holds,
  -- and a port is cut to 16 bits.
  pub parse_client_args-command_line :
      (os : List ClientOption) (a : ClientArgs)
      → AllFit os
      → parse_client_args p (command_line os []) a ≡ parsed (foldl chosen a os)
  parse_client_args-command_line os a fit = parse_options os [] a fit ∙ stop (foldl chosen a os)
    where
      stop : (b : ClientArgs) → parse_client_args p [] b ≡ parsed b
      stop b = unfold parse_client_args parse_loop in refl

  overflow_option :
      (o : ClientOption) (rest : List String) (a : ClientArgs)
      → ¬ Fits o
      → parse_client_args p (words_of o rest) a ≡ overflow
  unfolding parse_client_args parse_loop set_client_option copy_name
  overflow_option (server_option true text) rest a long = ground arith
  overflow_option (server_option false text) rest a long = ground arith
  overflow_option (ip_option true text) rest a long = ground arith
  overflow_option (ip_option false text) rest a long = ground arith
  overflow_option (port_option short text) rest a long = absurd (long tt)
  overflow_option (client_port_option short text) rest a long = absurd (long tt)

  -- A server name or address of 64 bytes or more, after any options that fit, is copied past the end
  -- of its array, whatever follows.
  pub parse_client_args_overflow :
      (os : List ClientOption) (o : ClientOption) (rest : List String) (a : ClientArgs)
      → AllFit os
      → ¬ Fits o
      → parse_client_args p (command_line os (words_of o rest)) a ≡ overflow
  parse_client_args_overflow os o rest a fit long =
      parse_options os (words_of o rest) a fit ∙ overflow_option o rest (foldl chosen a os) long
