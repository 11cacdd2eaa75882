-- ===== src/Socket.antt =====
-- `initUDPSocket` of fsw/src/sntp.c.
pub mod Laws
pub mod Life
use cfe_sntp.Base.{ℕ, ◌%◌, ◌^◌, ℤ, negsuc, is_negative, if◌then◌else◌}
use cfe_sntp.Platform.{Platform, Call}
use cfe_sntp.World.{M, pure, ◌>>=◌, ◌>>◌, call}

-- The timeout of a read, in seconds.
abbrev pub receive_timeout : ℕ
receive_timeout = 1

module _ {ℓ} {S : Type ℓ} (p : Platform) where
  -- The result of `setsockopt` is not looked at.
  unfoldable pub init_udp_socket : ℕ → M S ℤ
  init_udp_socket port = do
    sockfd ← call p Call.socket
    if is_negative sockfd then (call p (Call.perror "Error creating socket") >> pure sockfd) else do
      bound ← call p (Call.bind sockfd (p.host.htons (port % 2 ^ 16)))
      if is_negative bound
          then (do
            call p (Call.perror "Error binding to server port")
            call p (Call.close sockfd)
            pure (negsuc 0))
          else do call p (Call.setsockopt_rcvtimeo sockfd receive_timeout); pure sockfd
