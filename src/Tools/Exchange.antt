-- ===== src/Tools/Exchange.antt =====
-- A query of the standalone client and the handler that answers it, which may run on two hosts.
pub mod Codec
pub mod Run
use cfe_sntp.Base.{
  ℕ, ◌%◌, ◌≡◌, ◌≢◌, sym, ap, ◌∙◌, false, List, ◌∷◌, some, Bytes, length, take, ℤ, pos, is_negative,
  arith,
}
use cfe_sntp.Platform.{Platform}
use cfe_sntp.Platform.Laws.{IsHost, IsCoreSntp, IsAnswers}
use cfe_sntp.World.{World}
use cfe_sntp.Request.{answer_request}
use cfe_sntp.Request.Laws.{first_reading, second_reading, answer_request-IsReply}
use cfe_sntp.Request.Order.{fixed_point}
use cfe_sntp.Request.Wire.{IsRfc}
use cfe_sntp.App.Trace.{Datagram, sends}
use cfe_sntp.App.Trace.Request.{second_reading-Silent, send_response-sends}
use cfe_sntp.Tools.Client.{ClientState, run_sntp_query}
use cfe_sntp.Tools.Client.Query.{
  read_call, datagram, arrival_time, serialized, request_time, request_call, requested,
}
use cfe_sntp.Tools.Exchange.Codec.{IsCodec, run_sntp_query_replied, request_facts}

module _ (p q : Platform) (rfc : IsRfc p.sntp) (rfc' : IsRfc q.sntp) where
  same_datagram : {d e : Datagram} {l : List Datagram} → d ∷ l ≡ e ∷ l → d.bytes ≡ e.bytes
  same_datagram same = ground arith

  module _ {ℓ} {S : Type ℓ} (sntp : IsCoreSntp p.sntp) (codec : IsCodec p) (host : IsHost q.host)
      (sntp' : IsCoreSntp q.sntp) (answers : IsAnswers q) where
    -- A query of the client is a success whenever its request reaches the handler of the app or of
    -- the test server, and the reply that this sends comes back.
    pub run_sntp_query_answered :
        (w : World ClientState) (u : World S) (fd : ℤ) (level : ℕ) (addr : Bytes) (len : ℕ)
        → (d : Datagram) → length w.net_buf ≡ p.sntp.packet_size
        → is_negative (p.answers.ret (request_call p w ∷ (request_time p w).1.calls)) ≡ false
        → u.net_buf ≡ take p.sntp.packet_base_size (serialized p w).2
        → sends (answer_request q fd level addr len u).1.calls ≡ d ∷ sends u.calls
        → p.answers.ret (read_call p (requested p w)) ≡ pos p.sntp.packet_base_size
        → (datagram p (requested p w)).bytes ≡ d.bytes
        → level % 256 ≢ 0
        → fixed_point (serialized p w).1 ≢ 0
        → fixed_point (first_reading q u).0 ≢ 0
        → fixed_point (second_reading q u).0 ≢ 0
        → fixed_point (arrival_time p (requested p w)) ≢ 0
        → (run_sntp_query p w).0 ≡ some p.sntp.success
    run_sntp_query_answered w u fd level addr len d size leaves delivered replied comes back no_kiss
          is_asked is_received is_sent is_arrival =
        let facts = request_facts p q rfc rfc' sntp codec w u.net_buf size delivered in
        let (reply, right, run) =
          answer_request-IsReply q host sntp' answers u facts.0 facts.1 fd level addr len in
        let same : d.bytes ≡ reply = same_datagram (
          sym replied
          ∙ ap (λ s. sends s.1.calls) run
          ∙ (send_response-sends q fd reply addr len (second_reading q u).1).0
          ∙ ap (λ l. record { sockfd = fd; bytes = reply; addr = addr; len = len } ∷ l)
              (second_reading-Silent q u).same_sends) in
        run_sntp_query_replied p q rfc rfc' sntp codec w level u.net_buf reply _ _ size leaves
          delivered right comes (back ∙ same) no_kiss is_asked is_received is_sent is_arrival
