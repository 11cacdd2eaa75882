-- ===== src/Socket/Laws.antt =====
-- The paths through `initUDPSocket` (fsw/src/sntp.c).
use cfe_sntp.Base.{ℕ, ◌%◌, ◌^◌, ◌≡◌, ◌⊎◌, true, false, ◌∷◌, List, negsuc, is_negative, arith}
use cfe_sntp.Platform.{Platform, Call}
use cfe_sntp.World.{World}
use cfe_sntp.Socket.{init_udp_socket, receive_timeout}

module _ (p : Platform) where
  abbrev pub created : List Call → List Call
  created h = Call.socket ∷ h

  abbrev pub binding : ℕ → List Call → List Call
  binding port h = Call.bind (p.answers.ret (created h)) (p.host.htons (port % 2 ^ 16)) ∷ created h

  -- The calls of an initialisation that succeeds.
  abbrev pub opened : ℕ → List Call → List Call
  opened port h =
      Call.setsockopt_rcvtimeo (p.answers.ret (created h)) receive_timeout ∷ binding port h

  -- The calls of one whose socket cannot be bound.
  abbrev pub refused : ℕ → List Call → List Call
  refused port h =
      Call.close (p.answers.ret (created h))
      ∷ Call.perror "Error binding to server port"
      ∷ binding port h

  -- `initUDPSocket` has three outcomes. Either the descriptor is not negative, it is the one that
  -- `socket` gave, and it was bound with success and given its timeout. Or `socket` failed, and its
  -- result is passed on. Or `bind` failed, and the descriptor was closed and -1 returned. It changes
  -- nothing else.
  pub init_udp_socket_outcomes {ℓ} :
      {S : Type ℓ} (port : ℕ) (w : World S)
      → let r = init_udp_socket p port w in
        let fd = p.answers.ret (created w.calls) in
        let bound = p.answers.ret (binding port w.calls) in
        (r.1 ≡ record w { calls = r.1.calls })
        × (((is_negative fd ≡ false)
              × (is_negative bound ≡ false)
              × (r.0 ≡ fd)
              × (r.1.calls ≡ opened port w.calls))
            ⊎ ((is_negative fd ≡ true)
                × (r.0 ≡ fd)
                × (r.1.calls ≡ Call.perror "Error creating socket" ∷ created w.calls))
            ⊎ ((is_negative fd ≡ false)
                × (is_negative bound ≡ true)
                × (r.0 ≡ negsuc 0)
                × (r.1.calls ≡ refused port w.calls)))
  unfolding init_udp_socket
  init_udp_socket_outcomes port w = ground arith
