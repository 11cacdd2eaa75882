-- ===== src/Tools/Exchange/Run.antt =====
-- A query of the standalone client that a whole run of the app (fsw/src/sntp.c) answers.
use cfe_sntp.Base.{
  ℕ, ◌≡◌, ◌≢◌, refl, sym, ap, ◌∙◌, false, List, [], ◌∷◌, some, Bytes, length, take, be32, pos,
  is_negative, arith,
}
use cfe_sntp.Platform.{Platform, Timestamp, Field}
use cfe_sntp.Platform.Laws.{IsHost, IsCoreSntp, IsAnswers}
use cfe_sntp.World.{World}
use cfe_sntp.Packet.{field_bytes}
use cfe_sntp.Request.Order.{fixed_point}
use cfe_sntp.Request.Reply.{IsReply}
use cfe_sntp.Request.Wire.{IsRfc}
use cfe_sntp.App.Trace.{Datagram, sends}
use cfe_sntp.Tools.Client.{ClientState, run_sntp_query}
use cfe_sntp.Tools.Client.Query.{
  read_call, datagram, arrival_time, serialized, request_time, request_call, requested,
}
use cfe_sntp.Base.{be32-from_be32, from_be32}
use cfe_sntp.App.{SntpData, sntp_stratum}
use cfe_sntp.App.Main.{sntp_main}
use cfe_sntp.App.Replies.{requests}
use cfe_sntp.App.Replies.Right.{FillsPackets, AllRight, sntp_main-IsRight}
use cfe_sntp.App.Replies.Times.{time_at}
use cfe_sntp.Request.{receive_slot, transmit_slot}
use cfe_sntp.Tools.Exchange.Codec.{IsCodec, run_sntp_query_replied}

-- The datagram that stands where the request does.
pub data Answers (request : Bytes) (d : Datagram) : List Bytes → List Datagram → Type 0 where
  here : {qs : List Bytes} {ds : List Datagram} → Answers request d (request ∷ qs) (d ∷ ds)
  there :
      {q : Bytes} {e : Datagram} {qs : List Bytes} {ds : List Datagram}
      → Answers request d qs ds
      → Answers request d (q ∷ qs) (e ∷ ds)

be32-from_be32-be32 : (x : ℕ) → be32 (from_be32 (be32 x)) ≡ be32 x
be32-from_be32-be32 x = be32-from_be32 (be32 x) refl (omega arith)

module _ (q : Platform) (level : ℕ) (request : Bytes) where
  -- The word of a field that holds a word.
  same_word :
      (f : Field) (x : ℕ) (bytes : Bytes)
      → field_bytes q f bytes ≡ be32 x
      → field_bytes q f bytes ≡ be32 (from_be32 (field_bytes q f bytes))
  same_word f x bytes held = held ∙ sym (ap (λ b. be32 (from_be32 b)) held ∙ be32-from_be32-be32 x)

  -- A right reply is right for the times that it holds.
  IsReply-time_at :
      (received sent : Timestamp) (bytes : Bytes)
      → IsReply q level request received sent bytes
      → IsReply q level request (time_at q receive_slot bytes) (time_at q transmit_slot bytes) bytes
  IsReply-time_at received sent bytes right = record {
    size = right.size;
    mode = right.mode;
    stratum_level = right.stratum_level;
    no_kiss = right.no_kiss;
    echoed_seconds = right.echoed_seconds;
    echoed_fractions = right.echoed_fractions;
    cleared = right.cleared;
    receive_seconds = same_word _ _ bytes right.receive_seconds;
    receive_fractions = same_word _ _ bytes right.receive_fractions;
    transmit_seconds = same_word _ _ bytes right.transmit_seconds;
    transmit_fractions = same_word _ _ bytes right.transmit_fractions;
  }

  AllRight-IsReply :
      (d : Datagram) (qs : List Bytes) (ds : List Datagram)
      → AllRight q level qs ds
      → Answers request d qs ds
      → IsReply q level request
          (time_at q receive_slot d.bytes)
          (time_at q transmit_slot d.bytes)
          d.bytes
  AllRight-IsReply d _ _ right here = IsReply-time_at _ _ d.bytes right.0.2
  AllRight-IsReply d _ _ right (there rest) = AllRight-IsReply d _ _ right.1 rest

module _ (p q : Platform) (rfc : IsRfc p.sntp) (rfc' : IsRfc q.sntp) (sntp : IsCoreSntp p.sntp)
    (codec : IsCodec p) (host : IsHost q.host) (sntp' : IsCoreSntp q.sntp) (answers : IsAnswers q)
    (fills : FillsPackets q) where
  -- A query of the client is a success whenever its request is among the datagrams that a run of the
  -- app reads as requests, and the datagram that the app sent in its place comes back. The packet is
  -- that of RFC 4330 on both hosts, the library's codec, the hosts and the answers are as documented,
  -- the two receive buffers have the size of a packet, and the times of the request, of the reply
  -- and of the arrival are set.
  pub run_sntp_query_served :
      (fuel : ℕ) (u : World SntpData)
      → u.calls ≡ []
      → length u.net_buf ≡ q.sntp.packet_size
      → (w : World ClientState) (request : Bytes) (d : Datagram)
      → length w.net_buf ≡ p.sntp.packet_size
      → is_negative (p.answers.ret (request_call p w ∷ (request_time p w).1.calls)) ≡ false
      → request ≡ take p.sntp.packet_base_size (serialized p w).2
      → Answers request d
          (requests q (sntp_main q fuel u).1.calls)
          (sends (sntp_main q fuel u).1.calls)
      → p.answers.ret (read_call p (requested p w)) ≡ pos p.sntp.packet_base_size
      → (datagram p (requested p w)).bytes ≡ d.bytes
      → fixed_point (serialized p w).1 ≢ 0
      → fixed_point (time_at q receive_slot d.bytes) ≢ 0
      → fixed_point (time_at q transmit_slot d.bytes) ≢ 0
      → fixed_point (arrival_time p (requested p w)) ≢ 0
      → (run_sntp_query p w).0 ≡ some p.sntp.success
  run_sntp_query_served fuel u fresh buffer w request d size leaves delivered answered comes back
        is_asked is_received is_sent is_arrival =
      let h = (sntp_main q fuel u).1.calls in
      let run = sntp_main-IsRight q host sntp' answers fills fuel u fresh buffer in
      let right =
        AllRight-IsReply q sntp_stratum request d (requests q h) (sends h) run.replies answered in
      run_sntp_query_replied p q rfc rfc' sntp codec w sntp_stratum request d.bytes _ _ size leaves
        delivered right comes back (omega arith) is_asked is_received is_sent is_arrival
