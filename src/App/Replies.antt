-- ===== src/App/Replies.antt =====
-- The abstract view of the server: to whom it replied, and who asked.
pub mod Request
pub mod Main
pub mod Right
pub mod Times
use cfe_sntp.Base.{ℕ, ◌≡◌, List, [], ◌∷◌, ℤ, pos, ◌==ℤ◌, Bytes, if◌then◌else◌}
use cfe_sntp.Platform.{Platform, Call}
use cfe_sntp.World.{World}
use cfe_sntp.App.Trace.{sends}

-- The other end of a datagram: the socket, the address and its length.
pub record Peer : Type 0 where
  pub sockfd : ℤ
  pub addr : Bytes
  pub len : ℕ

-- To whom datagrams were sent, the last one first.
abbrev pub destinations : List Call → List Peer
destinations [] = []
destinations (Call.sendto fd bytes addr len ∷ h) =
    record { sockfd = fd; addr = addr; len = len } ∷ destinations h
destinations (_ ∷ h) = destinations h

module _ (p : Platform) where
  -- From whom a datagram of the length of a packet was read, the last one first.
  abbrev pub requesters : List Call → List Peer
  requesters [] = []
  requesters (Call.recvfrom fd size ∷ h) =
      let n = p.answers.ret (Call.recvfrom fd size ∷ h) in
      let r = p.answers.received (Call.recvfrom fd size ∷ h) in
      let rest = requesters h in
      if n ==ℤ pos p.sntp.packet_base_size
      then record { sockfd = fd; addr = r.addr; len = r.addr_len } ∷ rest
      else rest
  requesters (_ ∷ h) = requesters h

  -- The bytes of these datagrams.
  abbrev pub requests : List Call → List Bytes
  requests [] = []
  requests (Call.recvfrom fd size ∷ h) =
      let n = p.answers.ret (Call.recvfrom fd size ∷ h) in
      let r = p.answers.received (Call.recvfrom fd size ∷ h) in
      let rest = requests h in if n ==ℤ pos p.sntp.packet_base_size then r.bytes ∷ rest else rest
  requests (_ ∷ h) = requests h

  module _ {ℓ} {S : Type ℓ} where
    -- The replies went to those who asked, one to each, in the order of their requests.
    pub record IsPaired (w : World S) : Type 0 where
      pub paired : destinations w.calls ≡ requesters w.calls

    -- From `w` to `w'` nobody asked and nobody was answered.
    pub record Quiet (w w' : World S) : Type 0 where
      pub same_destinations : destinations w'.calls ≡ destinations w.calls
      pub same_requesters : requesters w'.calls ≡ requesters w.calls
      pub same_requests : requests w'.calls ≡ requests w.calls
      pub same_sends : sends w'.calls ≡ sends w.calls
      pub same_buffer : w'.net_buf ≡ w.net_buf
