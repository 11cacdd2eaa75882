-- ===== src/Tools/Client/Session.antt =====
-- A whole run of tools/client_test.c, by its calls of the network.
use Prim.Native.String.{String}
use cfe_sntp.Base.{
  ℕ, ◌≡◌, ◌≢◌, ◌⊎◌, sym, subst, refl, true, false, Bool, List, [], ◌∷◌, Bytes, ℤ, none, inl, inr,
  is_negative, arith,
}
use cfe_sntp.Platform.{Platform, Call, Timestamp}
use cfe_sntp.World.{World}
use cfe_sntp.Clock.{get_current_sntp_time}
use cfe_sntp.Clock.Laws.{get_current_sntp_time_frame}
use cfe_sntp.Tools.{print_lines}
use cfe_sntp.Tools.Client.{
  ClientState, init_client_socket, report, await_response, run_sntp_query, client_main,
}
use cfe_sntp.Tools.Client.Connect.{init_client_socket_outcomes}
use cfe_sntp.Tools.Client.Query.{arrived, serialized, requested, request_call, request_time}

module _ (p : Platform) where
  -- The calls on a socket with what they returned, the last one first.
  abbrev pub network : List Call → List (Call × ℤ)
  network [] = []
  network (Call.socket ∷ h) = (Call.socket, p.answers.ret (Call.socket ∷ h)) ∷ network h
  network (Call.bind fd port ∷ h) =
      (Call.bind fd port, p.answers.ret (Call.bind fd port ∷ h)) ∷ network h
  network (Call.setsockopt_rcvtimeo fd seconds ∷ h) =
      (Call.setsockopt_rcvtimeo fd seconds, p.answers.ret (Call.setsockopt_rcvtimeo fd seconds ∷ h))
      ∷ network h
  network (Call.close fd ∷ h) = (Call.close fd, p.answers.ret (Call.close fd ∷ h)) ∷ network h
  network (Call.recvfrom fd size ∷ h) =
      (Call.recvfrom fd size, p.answers.ret (Call.recvfrom fd size ∷ h)) ∷ network h
  network (Call.sendto fd bytes addr len ∷ h) =
      (Call.sendto fd bytes addr len, p.answers.ret (Call.sendto fd bytes addr len ∷ h)) ∷ network h
  network (_ ∷ h) = network h

  -- The socket `fd` was made, and if it was bound, that was a success.
  pub data Opened (fd : ℤ) : List (Call × ℤ) → Type 0 where
    unbound : is_negative fd ≡ false → Opened fd ((Call.socket, fd) ∷ [])
    with_port :
        {port : ℕ} {b : ℤ}
        → is_negative fd ≡ false
        → is_negative b ≡ false
        → Opened fd ((Call.bind fd port, b) ∷ (Call.socket, fd) ∷ [])

  -- What a run may do, and whether it comes to its end.
  pub data Session : Bool → List (Call × ℤ) → Type 0 where
    stopped : Session false []
    no_socket : {fd : ℤ} → is_negative fd ≡ true → Session false ((Call.socket, fd) ∷ [])
    no_port :
        {fd b closed : ℤ} {port : ℕ}
        → is_negative fd ≡ false
        → is_negative b ≡ true
        → Session false ((Call.close fd, closed) ∷ (Call.bind fd port, b) ∷ (Call.socket, fd) ∷ [])
    no_request : {fd : ℤ} {h : List (Call × ℤ)} → Opened fd h → Session false h
    unsent :
        {fd sent : ℤ} {h : List (Call × ℤ)} {bytes addr : Bytes}
        → Opened fd h
        → is_negative sent ≡ true
        → Session true ((Call.sendto fd bytes addr p.sockaddr_size, sent) ∷ h)
    awaited :
        {fd sent got : ℤ} {h : List (Call × ℤ)} {bytes addr : Bytes}
        → Opened fd h
        → is_negative sent ≡ false
        → Session true (
            (Call.recvfrom fd p.sntp.packet_base_size, got)
            ∷ (Call.sendto fd bytes addr p.sockaddr_size, sent)
            ∷ h)

  network-get_current_sntp_time :
      (old : Timestamp) (w : World ClientState)
      → network (get_current_sntp_time p old w).1.calls ≡ network w.calls
  unfolding get_current_sntp_time
  network-get_current_sntp_time old w = ground arith

  -- The read of the answer, after the calls of `w`, and what it returned.
  abbrev answer_read : World ClientState → Call × ℤ
  answer_read w =
      let c = Call.recvfrom w.state.sockfd p.sntp.packet_base_size in
      (c, p.answers.ret (c ∷ w.calls))

  network-await_response :
      (time : Timestamp) (w : World ClientState)
      → network (await_response p time w).1.calls ≡ answer_read w ∷ network w.calls
  unfolding await_response report
  network-await_response time w = ground (
    arith,
    network-get_current_sntp_time (p.answers.unset_time (arrived p w).calls) (arrived p w),
  )

  -- The request, and what `sendto` returned.
  abbrev request_sent : World ClientState → Call × ℤ
  request_sent w = (request_call p w, p.answers.ret (request_call p w ∷ (request_time p w).1.calls))

  -- A query sends nothing, or fails to send, or sends and reads.
  network-run_sntp_query :
      (w : World ClientState)
      → let r = run_sntp_query p w in
        ((r.0 ≡ none) × (network r.1.calls ≡ network w.calls))
        ⊎ ((r.0 ≢ none)
            × (is_negative (request_sent w).1 ≡ true)
            × (network r.1.calls ≡ request_sent w ∷ network w.calls))
        ⊎ ((r.0 ≢ none)
            × (is_negative (request_sent w).1 ≡ false)
            × (network r.1.calls ≡ answer_read (requested p w) ∷ request_sent w ∷ network w.calls))
  unfolding run_sntp_query
  network-run_sntp_query w =
      let v = record w { calls = Call.random ∷ w.calls } in
      let unset = p.answers.unset_time v.calls in
      ground (
        arith,
        network-get_current_sntp_time unset v,
        get_current_sntp_time_frame p unset v,
        network-await_response (serialized p w).1 (requested p w),
      )

  abbrev IsOpened : World ClientState → Type 0
  IsOpened w = Opened w.state.sockfd (network w.calls)

  run_sntp_query-Session :
      (w : World ClientState)
      → IsOpened w
      → let r = run_sntp_query p w in
        ((r.0 ≡ none) × Session false (network r.1.calls))
        ⊎ ((r.0 ≢ none) × Session true (network r.1.calls))
  run_sntp_query-Session w opened = elim (network-run_sntp_query w) [
    | inl (failed, calls) ↦ inl (failed, subst (Session false) (sym calls) (no_request opened))
    | inr (inl (ended, fails, calls)) ↦
        inr (ended, subst (Session true) (sym calls) (unsent opened fails))
    | inr (inr (ended, goes, calls)) ↦
        inr (ended, subst (Session true) (sym calls) (awaited opened goes))
  ]

  init_client_socket-Session :
      (w : World ClientState)
      → network w.calls ≡ []
      → let r = init_client_socket p w in
        ((r.0 ≡ true) × IsOpened r.1) ⊎ ((r.0 ≡ false) × Session false (network r.1.calls))
  init_client_socket-Session w fresh = elim (init_client_socket_outcomes p w) [
    | inl (alive, made, state, inl (zero_port, calls)) ↦
        inl (alive, rw state (rw calls (rw fresh (unbound made))))
    | inl (alive, made, state, inr (some_port, given, calls)) ↦
        inl (alive, rw state (rw calls (rw fresh (with_port made given))))
    | inr (inl (ended, made, calls)) ↦ inr (ended, rw calls (rw fresh (no_socket made)))
    | inr (inr (ended, made, some_port, given, calls)) ↦
        inr (ended, rw calls (rw fresh (no_port made given)))
  ]

  network-print_lines :
      (lines : List String) (w : World ClientState)
      → network (print_lines p lines w).1.calls ≡ network w.calls
  unfolding print_lines
  network-print_lines [] w = refl
  network-print_lines (line ∷ lines) w = network-print_lines lines _

  -- Every run of the client, with any command line, is one of six sessions, by its calls on a socket
  -- and what they returned: it makes none; no socket could be made; the socket was made, could not be
  -- bound and was closed; it was made, and not bound or bound with success, and no request was made;
  -- `sendto` of the one request on such a socket failed; or it did not, and was followed by one read,
  -- for a packet. All calls are on one socket. The process comes to its end exactly in the last two;
  -- the socket is closed in the third alone, where it could not be bound, and no timeout is set.
  pub client_main-Session :
      (argv : List String) (w : World ClientState)
      → w.calls ≡ []
      → let r = client_main p argv w in Session r.0 (network r.1.calls)
  unfolding client_main
  client_main-Session argv w fresh =
      let none_yet : Session false [] = stopped in
      grind (arith, network-print_lines, init_client_socket-Session, run_sntp_query-Session)
