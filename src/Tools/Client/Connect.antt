-- ===== src/Tools/Client/Connect.antt =====
-- The standalone client: its socket.
use cfe_sntp.Base.{◌%◌, ◌^◌, ◌≡◌, ◌≢◌, ◌⊎◌, true, false, ◌∷◌, List, ℤ, is_negative, arith}
use cfe_sntp.Platform.{Platform, Call}
use cfe_sntp.World.{World}
use cfe_sntp.Tools.Client.{ClientState, init_client_socket}

module _ (p : Platform) (w : World ClientState) where
  abbrev pub descriptor : ℤ
  descriptor = p.answers.ret (Call.socket ∷ w.calls)

  -- The calls up to the conversion of the server's address.
  abbrev pub addressed : List Call
  addressed = Call.inet_pton w.state.client_args.server_ip ∷ Call.socket ∷ w.calls

  abbrev pub binding : List Call
  binding =
      Call.bind descriptor (p.host.htons (w.state.client_args.client_port % 2 ^ 16)) ∷ addressed

  -- The state with the socket and the server's address, of which the port is that of the settings.
  abbrev pub connected : ClientState
  connected = record (w.state) {
    sockfd = descriptor;
    server_addr =
        p.host.sockaddr_in (p.host.htons (w.state.client_args.port % 2 ^ 16))
          (p.answers.inet_addr addressed);
  }

  -- `initUDPClientSocket` has three outcomes. The socket is ready and the server's address is set;
  -- then the socket was bound exactly if a client port other than 0 was given. Or there is no
  -- socket, or it cannot be bound and is closed, and the process exits with a failure.
  pub init_client_socket_outcomes :
      let r = init_client_socket p w in
      let client_port = w.state.client_args.client_port in
      ((r.0 ≡ true)
        × (is_negative descriptor ≡ false)
        × (r.1.state ≡ connected)
        × (((client_port ≡ 0) × (r.1.calls ≡ addressed))
            ⊎ ((client_port ≢ 0)
                × (is_negative (p.answers.ret binding) ≡ false)
                × (r.1.calls ≡ binding))))
      ⊎ ((r.0 ≡ false)
          × (is_negative descriptor ≡ true)
          × (r.1.calls
              ≡ Call.exit_process 1 ∷ Call.perror "Error creating socket" ∷ Call.socket ∷ w.calls))
      ⊎ ((r.0 ≡ false)
          × (is_negative descriptor ≡ false)
          × (client_port ≢ 0)
          × (is_negative (p.answers.ret binding) ≡ true)
          × (r.1.calls
              ≡ Call.exit_process 1
                ∷ Call.close descriptor
                ∷ Call.perror "Error binding to client port"
                ∷ binding))
  unfolding init_client_socket
  init_client_socket_outcomes = ground arith
