-- ===== src/Socket/Life.antt =====
-- The life of a program's socket, as a machine that reads the history of calls.
use cfe_sntp.Base.{◌≡◌, ◌⊎◌, List, [], ◌∷◌, ℤ, is_negative, ◌==ℤ◌, if◌then◌else◌}
use cfe_sntp.Platform.{Platform, Call}

-- `bound` has its port, and for `ready` setsockopt was called too, whatever it returned.
pub data SocketState : Type 0 where
  absent closed : SocketState
  created bound ready : ℤ → SocketState

-- What the calls do to a socket. A call on another descriptor does nothing to it.
abbrev pub bind_to : ℤ → SocketState → SocketState
bind_to fd (created fd') = if fd ==ℤ fd' then bound fd else created fd'
bind_to fd s = s

abbrev pub limit_to : ℤ → SocketState → SocketState
limit_to fd (bound fd') = if fd ==ℤ fd' then ready fd else bound fd'
limit_to fd s = s

abbrev pub close_to : ℤ → SocketState → SocketState
close_to fd absent = absent
close_to fd closed = closed
close_to fd (created fd') = if fd ==ℤ fd' then closed else created fd'
close_to fd (bound fd') = if fd ==ℤ fd' then closed else bound fd'
close_to fd (ready fd') = if fd ==ℤ fd' then closed else ready fd'

module _ (p : Platform) where
  -- The state after a history. A socket that could not be made or bound is what it was.
  abbrev pub socket_after : List Call → SocketState
  socket_after [] = absent
  socket_after (Call.socket ∷ h) =
      let fd = p.answers.ret (Call.socket ∷ h) in
      let before = socket_after h in if is_negative fd then before else created fd
  socket_after (Call.bind fd port ∷ h) =
      let before = socket_after h in
      if is_negative (p.answers.ret (Call.bind fd port ∷ h)) then before else bind_to fd before
  socket_after (Call.setsockopt_rcvtimeo fd seconds ∷ h) = limit_to fd (socket_after h)
  socket_after (Call.close fd ∷ h) = close_to fd (socket_after h)
  socket_after (_ ∷ h) = socket_after h

  -- No socket is left: none was made, or it was closed.
  abbrev pub NoSocket : List Call → Type 0
  NoSocket h = (socket_after h ≡ absent) ⊎ (socket_after h ≡ closed)

  module _ (good : ℤ → SocketState) where
    -- Whatever was read or sent, was read or sent on a socket that was in the state `good`.
    abbrev pub AllOn : List Call → Type 0
    AllOn [] = Unit
    AllOn (Call.recvfrom fd size ∷ h) = (socket_after h ≡ good fd) × AllOn h
    AllOn (Call.sendto fd bytes addr len ∷ h) = (socket_after h ≡ good fd) × AllOn h
    AllOn (_ ∷ h) = AllOn h

    -- No socket is left after a history of such reads and sends.
    abbrev pub IsIdle : List Call → Type 0
    IsIdle h = AllOn h × NoSocket h

    -- The socket `fd` is in that state after a history of such reads and sends.
    pub record IsOn (fd : ℤ) (h : List Call) : Type 0 where
      pub now : socket_after h ≡ good fd
      pub always : AllOn h
