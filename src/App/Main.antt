-- ===== src/App/Main.antt =====
-- `SNTP_Main` of fsw/src/sntp.c: one round of its loop, the loop with fuel, and the whole.
pub mod Laws
pub mod Exit
pub mod Fuel
pub mod Keeps
pub mod Socket
use cfe_sntp.Base.{
  ℕ, zero, suc, ◌+◌, Bool, true, false, not, ◌&&◌, [], ◌∷◌, ℤ, pos, is_negative, is_positive, ◌==◌,
  ◌==ℤ◌, Bytes, write, if◌then◌else◌,
}
use cfe_sntp.Telemetry.{Payload, u16}
use cfe_sntp.Platform.{Platform, Arg, Received, Call}
use cfe_sntp.World.{M, pure, ◌>>=◌, ◌>>◌, get, put, get_net_buf, put_net_buf, issue, call, observe}
use cfe_sntp.Packet.{net_buf_size}
use cfe_sntp.Request.{answer_request}
use cfe_sntp.App.{SntpData, update_cnts, perf_id, sntp_stratum}
use cfe_sntp.App.Command.{process_command_packet}
use cfe_sntp.App.Init.{init}

-- The locals `clientAddr` and `clientLen`, which live across the rounds.
pub record Client : Type 0 where
  pub addr : Bytes
  pub len : ℕ

abbrev pub count_request : Payload → Payload
count_request c = record c { sntp_req_rcv = u16 (c.sntp_req_rcv + 1) }

abbrev pub count_bad : Payload → Payload
count_bad c = record c { sntp_bad_requests = u16 (c.sntp_bad_requests + 1) }

abbrev pub count_invalid : Payload → Payload
count_invalid c = record c { sntp_invalid_requests = u16 (c.sntp_invalid_requests + 1) }

module _ (p : Platform) where
  -- `process_sntp_request`
  unfoldable pub process_sntp_request : Client → M SntpData ℤ
  process_sntp_request client = do
    s ← get
    answer_request p s.sockfd sntp_stratum client.addr client.len

  -- The poll of the command pipe.
  unfoldable pub poll_command : M SntpData (Unit {0})
  poll_command = do
    call p (Call.perf_log_exit perf_id)
    s ← get
    status ← call p (Call.poll_buffer s.command_pipe)
    msg ← observe p.answers.message
    call p (Call.perf_log_entry perf_id)
    if status ==ℤ p.cfe.success
        then (do call p (Call.os_printf "SNTP CMD Received\n" []); process_command_packet p msg)
        else pure tt

  -- `recvfrom`: a datagram is stored in the buffer, and its sender in the locals.
  unfoldable pub receive : Client → M SntpData (ℤ × ℕ × Client)
  receive client = do
    s ← get
    n ← call p (Call.recvfrom s.sockfd (net_buf_size p))
    r ← observe p.answers.received
    buf ← get_net_buf
    if is_negative n then pure (n, r.errno, client) else do
      put_net_buf (write 0 r.bytes buf)
      pure (n, r.errno, record { addr = r.addr; len = r.addr_len })

  -- The branches on the number of bytes.
  unfoldable pub handle : ℤ → ℕ → Client → M SntpData (Unit {0})
  handle n errno client =
      if n ==ℤ pos (net_buf_size p)
      then (do
        update_cnts count_request
        status ← process_sntp_request client
        if not (status ==ℤ p.sntp.success) then update_cnts count_bad else pure tt)
      else if is_positive n
      then (do
        update_cnts count_invalid
        call p (Call.os_printf "ERROR: Invalid packet received of size %li\n" (Arg.int n ∷ []))
        pure tt)
      else if is_negative n && (not (errno == p.etimedout) && not (errno == p.eagain))
      then (do
        update_cnts count_invalid
        call p (
            Call.os_printf "Unexpected recvfrom error: %li %i=%s\n"
              (Arg.int n ∷ Arg.nat errno ∷ Arg.text (p.host.strerror errno) ∷ []))
        pure tt)
      else pure tt

  -- From the read on: the datagram, and what is done with it.
  unfoldable pub serve : Client → M SntpData Client
  serve client = do got ← receive client; handle got.0 got.1 got.2; pure got.2

  -- The body of the loop.
  unfoldable pub round : Client → M SntpData Client
  round client = do poll_command; serve client

  -- `CFE_ES_RunLoop(&SNTP_Data.RunStatus)`
  unfoldable pub run_loop : M SntpData Bool
  run_loop = do
    s ← get
    more ← issue p.answers.keeps_running (Call.run_loop s.run_status)
    status ← observe p.answers.run_status
    put (record s { run_status = status })
    pure more

  -- The loop, for at most `fuel` tests. The result says whether a test ended it.
  unfoldable pub main_loop : ℕ → Client → M SntpData Bool
  main_loop zero client = pure false
  main_loop (suc fuel) client = do
    more ← run_loop
    elim more [ true ↦ round client >>= λ c. main_loop fuel c | false ↦ pure true ]

  -- `SNTP_Init` and what a failure of it sets.
  unfoldable pub start : M SntpData (Unit {0})
  start = do
    call p (Call.perf_log_entry perf_id)
    status ← init p
    if not (status ==ℤ p.cfe.success)
        then (do
          call p (Call.os_printf "SNTP Init Failed!\n" [])
          s ← get
          put (record s { run_status = p.cfe.app_error }))
        else pure tt

  -- The statements after the loop.
  unfoldable pub finish : M SntpData (Unit {0})
  finish = do
    call p (Call.os_printf "****SNTP App Exiting****\n" [])
    call p (Call.perf_log_exit perf_id)
    s ← get
    call p (Call.exit_app s.run_status)
    pure tt

  -- `SNTP_Main`. The result is `false` if the fuel ran out first.
  unfoldable pub sntp_main : ℕ → M SntpData Bool
  sntp_main fuel = do
    start
    addr ← observe p.answers.unset_addr
    ended ← main_loop fuel (record { addr = addr; len = p.sockaddr_size })
    if ended then (finish >> pure true) else pure false
