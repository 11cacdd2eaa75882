-- ===== src/Tools/Server.antt =====
-- tools/server_test.c, the standalone server.
pub mod Laws
pub mod Runs
pub mod Socket
pub mod Right
use Prim.Native.String.{String}
use cfe_sntp.Base.{
  ℕ, zero, suc, ◌%◌, ◌^◌, Bool, true, false, not, List, [], ◌∷◌, write, ℤ, pos, is_negative, ◌==ℤ◌,
  to_u16, to_u8, if◌then◌else◌,
}
use cfe_sntp.Platform.{Platform, Arg, Call}
use cfe_sntp.World.{M, pure, ◌>>=◌, ◌>>◌, get, put, get_net_buf, put_net_buf, call, observe}
use cfe_sntp.Packet.{net_buf_size}
use cfe_sntp.Request.{answer_request}
use cfe_sntp.Tools.{Parsed, parsed, usage, bad, overflow, is_one_of, parse_loop, print_lines}

-- `server_args_t`
pub record ServerArgs : Type 0 where
  pub port : ℕ
  pub stratum : ℕ

-- The globals of the tool. `netBuf` is the buffer of the world.
pub record ServerState : Type 0 where
  pub sockfd : ℤ
  pub server_args : ServerArgs

abbrev pub default_args : ServerArgs
default_args = record { port = 123; stratum = 15 }

-- The lines of `printUsage`.
abbrev pub server_usage : List String
server_usage =
    "Usage: program_name [options]\n" ∷ "Options:\n"
    ∷ "  -p, --port <port_number>     Set the server port (default: 123)\n"
    ∷ "  -s, --stratum <startum>         Set the NTP Stratum level (default: 15)\n"
    ∷ "  --help                       Display this help message\n" ∷ []

module _ (p : Platform) where
  unfoldable pub set_server_option : String → String → ServerArgs → Parsed ServerArgs
  set_server_option arg value a =
      if is_one_of "-p" "--port" arg
      then parsed (record a { port = to_u16 (p.host.atoi value) })
      else if is_one_of "-s" "--stratum" arg
      then parsed (record a { stratum = to_u8 (p.host.atoi value) })
      else bad "Unknown option: %s\n" arg

  -- `parseCommandLineArgs`
  unfoldable pub parse_server_args : List String → ServerArgs → Parsed ServerArgs
  parse_server_args argv a = parse_loop set_server_option argv a

  -- `initUDPSocket`. The result is `false` where the process exits.
  unfoldable pub init_server_socket : M ServerState Bool
  init_server_socket = do
    fd ← call p Call.socket
    s ← get
    put (record s { sockfd = fd })
    if is_negative fd
        then (do
          call p (Call.perror "Error creating socket")
          call p (Call.exit_process 1)
          pure false)
        else do
          bound ← call p (Call.bind fd (p.host.htons (s.server_args.port % 2 ^ 16)))
          if is_negative bound
              then (do
                call p (Call.perror "Error binding to server port")
                call p (Call.close fd)
                call p (Call.exit_process 1)
                pure false)
              else pure true

  -- `run_sntp_server`
  unfoldable pub run_sntp_server : M ServerState ℤ
  run_sntp_server = do
    s ← get
    n ← call p (Call.recvfrom s.sockfd (net_buf_size p))
    r ← observe p.answers.received
    buf ← get_net_buf
    if is_negative n
        then (do call p (Call.perror "Error receiving data"); pure p.sntp.error_network_failure)
        else do
          put_net_buf (write 0 r.bytes buf)
          if n ==ℤ pos 0
              then (do call p (Call.perror "No data received"); pure p.sntp.no_response_received)
              else if not (n ==ℤ pos (net_buf_size p))
              then (do
                call p (Call.os_printf "Received unexpected number of bytes %zi\n" (Arg.int n ∷ []))
                pure p.sntp.error_network_failure)
              else do
                call p (Call.os_printf "Received NTP Request\n" [])
                answer_request p s.sockfd s.server_args.stratum r.addr r.addr_len

  -- The first `rounds` turns of `while (1)`.
  unfoldable pub serve_rounds : ℕ → M ServerState (Unit {0})
  serve_rounds zero = pure tt
  serve_rounds (suc rounds) = run_sntp_server >> serve_rounds rounds

  -- `main`, for that many turns. The result is `false` where the process exits.
  unfoldable pub server_main : List String → ℕ → M ServerState Bool
  server_main argv rounds = do
    call p (Call.os_printf "SNTP Server Test App\n" [])
    s ← get
    elim (parse_server_args argv s.server_args) [
      | parsed a ↦ (do
        put (record s { server_args = a })
        call p (
            Call.os_printf "Configuration:\n\t Server Port: %d\n\t Stratum: %d \n"
              (Arg.nat a.port ∷ Arg.nat a.stratum ∷ []))
        call p Call.seed_random
        alive ← init_server_socket
        if alive
            then (do
              call p (Call.os_printf "SNTP Server Listening\n" [])
              serve_rounds rounds
              pure true)
            else pure false)
      | usage ↦ print_lines p server_usage >> call p (Call.exit_process 0) >> pure false
      | bad format arg ↦
          call p (Call.print_error format (Arg.text arg ∷ []))
          >> call p (Call.exit_process 1)
          >> pure false
      | overflow ↦ pure false
    ]
