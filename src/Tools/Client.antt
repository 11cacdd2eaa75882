-- ===== src/Tools/Client.antt =====
-- tools/client_test.c, the standalone client.
pub mod Laws
pub mod Query
pub mod Session
pub mod Connect
use Prim.Native.String.{String}
use cfe_sntp.Base.{
  ℕ, ◌%◌, ◌^◌, Bool, true, false, not, List, [], ◌∷◌, Bytes, Option, none, some, codes, length,
  take, write, ℤ, pos, is_negative, ◌==◌, ◌==ℤ◌, ltb, to_u16, quot, if◌then◌else◌,
}
use cfe_sntp.Platform.{Platform, Arg, Timestamp, ResponseData, Call}
use cfe_sntp.Packet.{net_buf_size}
use cfe_sntp.World.{M, pure, ◌>>=◌, ◌>>◌, get, put, get_net_buf, put_net_buf, issue, call, observe}
use mathlib.Core.Option
use cfe_sntp.Status.{status_to_str}
use cfe_sntp.Clock.{get_current_sntp_time, fractions_to_ms}
use cfe_sntp.Tools.{Parsed, parsed, usage, bad, overflow, is_one_of, parse_loop, print_lines}

-- `client_args_t`. A name is kept as its text; it has 63 bytes at most.
pub record ClientArgs : Type 0 where
  pub server_name : String
  pub server_ip : String
  pub port : ℕ
  pub client_port : ℕ

-- The globals of the tool: the socket, the server's address, the settings.
pub record ClientState : Type 0 where
  pub sockfd : ℤ
  pub server_addr : Bytes
  pub client_args : ClientArgs

abbrev pub default_args : ClientArgs
default_args = record {
  server_name = "localhost";
  server_ip = "127.0.0.1";
  port = 123;
  client_port = 0;
}

abbrev pub name_size : ℕ
name_size = 64

-- `strcpy` into an array of `name_size` bytes: the text and its zero must fit.
unfoldable pub copy_name : String → ClientArgs → Parsed ClientArgs
copy_name text a = if ltb (length (codes text)) name_size then parsed a else overflow

-- The lines of `printUsage`.
abbrev pub client_usage : List String
client_usage =
    "Usage: program_name [options]\n" ∷ "Options:\n"
    ∷ "  -s, --server <server_name>   Set the server name (default: localhost)\n"
    ∷ "  -ip, --ip <server_ip>        Set the server IP (default: 127.0.0.1)\n"
    ∷ "  -p, --port <port_number>     Set the server port (default: 123)\n"
    ∷ "  -cp, --client-port <client_port_number> Set the client port (default: 0)\n"
    ∷ "  --help                       Display this help message\n" ∷ []

module _ (p : Platform) where
  unfoldable pub set_client_option : String → String → ClientArgs → Parsed ClientArgs
  set_client_option arg value a =
      if is_one_of "-s" "--server" arg
      then copy_name value (record a { server_name = value })
      else if is_one_of "-ip" "--ip" arg
      then copy_name value (record a { server_ip = value })
      else if is_one_of "-p" "--port" arg
      then parsed (record a { port = to_u16 (p.host.atoi value) })
      else if is_one_of "-cp" "--client-port" arg
      then parsed (record a { client_port = to_u16 (p.host.atoi value) })
      else bad "Unknown option: %s\n" arg

  -- `parseCommandLineArgs`
  unfoldable pub parse_client_args : List String → ClientArgs → Parsed ClientArgs
  parse_client_args argv a = parse_loop set_client_option argv a

  -- `initUDPClientSocket`. The result is `false` where the process exits.
  unfoldable pub init_client_socket : M ClientState Bool
  init_client_socket = do
    fd ← call p Call.socket
    s ← get
    put (record s { sockfd = fd })
    if is_negative fd
        then (do
          call p (Call.perror "Error creating socket")
          call p (Call.exit_process 1)
          pure false)
        else do
          call p (Call.inet_pton s.client_args.server_ip)
          addr ← observe p.answers.inet_addr
          t ← get
          put (record t {
            server_addr = p.host.sockaddr_in (p.host.htons (t.client_args.port % 2 ^ 16)) addr;
          })
          if s.client_args.client_port == 0 then pure true else do
            bound ← call p (Call.bind fd (p.host.htons (s.client_args.client_port % 2 ^ 16)))
            if is_negative bound
                then (do
                  call p (Call.perror "Error binding to client port")
                  call p (Call.close fd)
                  call p (Call.exit_process 1)
                  pure false)
                else pure true

  -- The report at the end of `run_sntp_query`.
  unfoldable pub report : ℤ → ResponseData → M ClientState ℤ
  report status response =
      if status ==ℤ p.sntp.success
      then (do
        call p (
            Call.os_printf "Updating system time TODO: ServerTime=%lu %lums ClockOffset=%lds\n" (
              Arg.nat response.server_time.seconds
              ∷ Arg.nat (fractions_to_ms p response.server_time.fractions)
              ∷ Arg.int (quot response.clock_offset_ms 1000)
              ∷ []))
        pure status)
      else do
        call p (
            Call.os_printf "SNTP Response Failed. Status was %i=%s\n"
              (Arg.int status ∷ Arg.text (Option.get_or (status_to_str status) "") ∷ []))
        pure status

  -- From the read on: the reply must have the length of a packet.
  unfoldable pub await_response : Timestamp → M ClientState ℤ
  await_response request_time = do
    s ← get
    n ← call p (Call.recvfrom s.sockfd (net_buf_size p))
    r ← observe p.answers.received
    buf ← get_net_buf
    if is_negative n
        then (do call p (Call.perror "Error receiving data"); pure p.sntp.error_network_failure)
        else do
          put_net_buf (write 0 r.bytes buf)
          if n ==ℤ pos 0
              then (do
                call p (Call.perror "No response received")
                pure p.sntp.no_response_received)
              else if not (n ==ℤ pos (net_buf_size p))
              then (do
                call p (Call.os_printf "Received unexpected number of bytes %li\n" (Arg.int n ∷ []))
                pure p.sntp.error_network_failure)
              else do
                call p (Call.os_printf "Received NTP response\n" [])
                unset ← observe p.answers.unset_time
                response_time ← get_current_sntp_time p unset
                filled ← get_net_buf
                let (status, response) =
                    p.sntp.deserialize_response request_time response_time filled (net_buf_size p)
                report status response

  -- `run_sntp_query`. `none` is the failed assertion on the serializer.
  unfoldable pub run_sntp_query : M ClientState (Option ℤ)
  run_sntp_query = do
    number ← issue p.answers.random Call.random
    unset ← observe p.answers.unset_time
    time ← get_current_sntp_time p unset
    buf ← get_net_buf
    let (status, request_time, request) = p.sntp.serialize_request time number buf (net_buf_size p)
    put_net_buf request
    if not (status ==ℤ p.sntp.success) then (call p Call.abort >> pure none) else do
      s ← get
      sent ←
          call p
            (Call.sendto s.sockfd (take (net_buf_size p) request) s.server_addr p.sockaddr_size)
      if is_negative sent
          then (do
            call p (Call.perror "Error sending data")
            pure (some p.sntp.error_network_failure))
          else do
            call p (Call.os_printf "NTP Request Sent\n" [])
            result ← await_response request_time
            pure (some result)

  -- `main`. The result is `false` where the process exits or breaks off early.
  unfoldable pub client_main : List String → M ClientState Bool
  client_main argv = do
    call p (Call.os_printf "SNTP Client Test App\n" [])
    s ← get
    elim (parse_client_args argv s.client_args) [
      | parsed a ↦ (do
        put (record s { client_args = a })
        call p (
            Call.os_printf "Configuration:\n\t Server Name: %s\n\t Server IP: %s \n\t Port: %d \n"
              (Arg.text a.server_name ∷ Arg.text a.server_ip ∷ Arg.nat a.port ∷ []))
        if not (a.client_port == 0)
            then call p
                (Call.os_printf "\t Client (listen) port: %d\n" (Arg.nat a.client_port ∷ []))
            else pure (pos 0)
        call p Call.seed_random
        alive ← init_client_socket
        if alive
            then (do
              call p (Call.os_printf "SNTP Client Demo Query\n" [])
              answered ← run_sntp_query
              elim answered [
                | none ↦ pure false
                | some status ↦ (call p (Call.os_printf "Done\n" []) >> pure true)
              ])
            else pure false)
      | usage ↦ print_lines p client_usage >> call p (Call.exit_process 0) >> pure false
      | bad format arg ↦
          call p (Call.print_error format (Arg.text arg ∷ []))
          >> call p (Call.exit_process 1)
          >> pure false
      | overflow ↦ pure false
    ]
