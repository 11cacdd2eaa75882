-- ===== src/Tools/Exchange/Codec.antt =====
-- What the standalone client (tools/client_test.c) takes for a success, and the library's codec, as far
-- as its documentation goes.
use cfe_sntp.Base.{
  ℕ, zero, suc, ◌%◌, ◌^◌, ◌≡◌, ◌≢◌, refl, sym, ap, ◌∙◌, false, List, [], ◌∷◌, some, Bytes, length,
  take, write, overwrite_full, be32, AreBytes, pos, is_negative, ==ℤ_refl, arith,
}
use cfe_sntp.Platform.{
  Platform, Timestamp, Field, Call, leap_version_mode, stratum, origin_seconds, origin_fractions,
  receive_seconds, receive_fractions, transmit_seconds, transmit_fractions,
}
use cfe_sntp.Platform.Laws.{IsCoreSntp}
use cfe_sntp.World.{World}
use cfe_sntp.Packet.{field_bytes}
use cfe_sntp.Clock.Laws.{get_current_sntp_time_frame}
use cfe_sntp.Request.Order.{fixed_point}
use cfe_sntp.Request.Reply.{IsReply}
use cfe_sntp.Request.Wire.{IsRfc, field_bytes_rfc}
use cfe_sntp.Tools.Client.{ClientState, await_response, run_sntp_query}
use cfe_sntp.Tools.Client.Query.{
  read_call, datagram, arrived, reading, arrival_time, decoded, report_status, serialized,
  request_time, request_call, requested,
}

-- A response in which `Sntp_DeserializeResponse` finds nothing wrong: from a server, of a stratum
-- that is no kiss of death, to the request of the time `asked`, with two times that are set.
pub record IsAcceptable (p : Platform) (asked : Timestamp) (buf : Bytes) : Type 0 where
  pub size : length buf ≡ p.sntp.packet_size
  pub mode : ℕ
  pub mode_byte : field_bytes p leap_version_mode buf ≡ mode ∷ []
  pub is_server : mode % 2 ^ p.sntp.version_lsb_position ≡ p.sntp.mode_server
  pub level : ℕ
  pub level_byte : field_bytes p stratum buf ≡ level ∷ []
  pub no_kiss : level ≢ 0
  pub asked_seconds : field_bytes p origin_seconds buf ≡ be32 asked.seconds
  pub asked_fractions : field_bytes p origin_fractions buf ≡ be32 asked.fractions
  pub received : Timestamp
  pub received_seconds : field_bytes p receive_seconds buf ≡ be32 received.seconds
  pub received_fractions : field_bytes p receive_fractions buf ≡ be32 received.fractions
  pub is_received : fixed_point received ≢ 0
  pub sent : Timestamp
  pub sent_seconds : field_bytes p transmit_seconds buf ≡ be32 sent.seconds
  pub sent_fractions : field_bytes p transmit_fractions buf ≡ be32 sent.fractions
  pub is_sent : fixed_point sent ≢ 0

-- The library's codec, as documented: a request is a packet that carries the time that is handed
-- back in its transmit timestamp, and an acceptable response is a success, if the times of the
-- request and of the arrival are set.
pub record IsCodec (p : Platform) : Type 0 where
  pub serializes :
      (time : Timestamp) (number : ℕ) (buf : Bytes)
      → length buf ≡ p.sntp.packet_size
      → let r = p.sntp.serialize_request time number buf p.sntp.packet_base_size in
        (r.0 ≡ p.sntp.success)
        × (length r.2 ≡ p.sntp.packet_size)
        × AreBytes r.2
        × (field_bytes p transmit_seconds r.2 ≡ be32 r.1.seconds)
        × (field_bytes p transmit_fractions r.2 ≡ be32 r.1.fractions)
  pub accepts :
      (asked arrival : Timestamp) (buf : Bytes)
      → fixed_point asked ≢ 0
      → fixed_point arrival ≢ 0
      → IsAcceptable p asked buf
      → (p.sntp.deserialize_response asked arrival buf p.sntp.packet_base_size).0 ≡ p.sntp.success

module _ (p : Platform) where
  -- What the client waits for is a success if it has the length of a packet and is accepted.
  await_response_accepts :
      (time : Timestamp) (w : World ClientState)
      → p.sntp.packet_base_size ≢ 0
      → p.answers.ret (read_call p w) ≡ pos p.sntp.packet_base_size
      → (p.sntp.deserialize_response time
          (arrival_time p w)
          (write 0 (datagram p w).bytes w.net_buf)
          p.sntp.packet_base_size).0
        ≡ p.sntp.success
      → (await_response p time w).0 ≡ p.sntp.success
  unfolding await_response
  await_response_accepts time w positive whole accepted = ground (
    arith,
    get_current_sntp_time_frame p (p.answers.unset_time (arrived p w).calls) (arrived p w),
    report_status p (decoded p time w).0 (decoded p time w).1 (reading p w).1,
    ==ℤ_refl (pos p.sntp.packet_base_size),
  )

  -- A query that can be sent comes to what its wait comes to.
  run_sntp_query_awaits :
      (w : World ClientState)
      → (serialized p w).0 ≡ p.sntp.success
      → is_negative (p.answers.ret (request_call p w ∷ (request_time p w).1.calls)) ≡ false
      → (run_sntp_query p w).0 ≡ some (await_response p (serialized p w).1 (requested p w)).0
  unfolding run_sntp_query
  run_sntp_query_awaits w good sent = ground (
    arith,
    get_current_sntp_time_frame p (p.answers.unset_time (Call.random ∷ w.calls))
        (record w { calls = Call.random ∷ w.calls }),
    ==ℤ_refl p.sntp.success,
  )

take_all {ℓ} : {A : Type ℓ} (n : ℕ) (xs : List A) → length xs ≡ n → take n xs ≡ xs
take_all zero [] h = refl
take_all zero (x ∷ xs) h = absurd (omega arith)
take_all (suc n) [] h = refl
take_all (suc n) (x ∷ xs) h = ap (λ l. x ∷ l) (take_all n xs (omega arith))

module _ (p q : Platform) (rfc : IsRfc p.sntp) (rfc' : IsRfc q.sntp) where
  same_field : (f : Field) (xs : Bytes) → field_bytes p f xs ≡ field_bytes q f xs
  same_field f xs = field_bytes_rfc p rfc f xs ∙ sym (field_bytes_rfc q rfc' f xs)

  -- A right reply of a server is acceptable to the client whose request it answers.
  IsReply-IsAcceptable :
      (level : ℕ) (request reply : Bytes) (asked received sent : Timestamp)
      → IsReply q level request received sent reply
      → field_bytes p transmit_seconds request ≡ be32 asked.seconds
      → field_bytes p transmit_fractions request ≡ be32 asked.fractions
      → level % 256 ≢ 0
      → fixed_point received ≢ 0
      → fixed_point sent ≢ 0
      → IsAcceptable p asked reply
  IsReply-IsAcceptable level request reply asked received sent right seconds fractions no_kiss
        is_received is_sent =
      record {
        size = right.size ∙ rfc'.size ∙ sym rfc.size;
        mode = 36;
        mode_byte =
            same_field leap_version_mode reply
            ∙ right.mode
            ∙ rw rfc'.server (rw rfc'.number (rw rfc'.position refl));
        is_server = rw rfc.position (rw rfc.server refl);
        level = level % 256;
        level_byte = same_field stratum reply ∙ right.stratum_level;
        no_kiss = no_kiss;
        asked_seconds =
            same_field origin_seconds reply
            ∙ right.echoed_seconds
            ∙ sym (same_field transmit_seconds request)
            ∙ seconds;
        asked_fractions =
            same_field origin_fractions reply
            ∙ right.echoed_fractions
            ∙ sym (same_field transmit_fractions request)
            ∙ fractions;
        received = received;
        received_seconds = same_field receive_seconds reply ∙ right.receive_seconds;
        received_fractions = same_field receive_fractions reply ∙ right.receive_fractions;
        is_received = is_received;
        sent = sent;
        sent_seconds = same_field transmit_seconds reply ∙ right.transmit_seconds;
        sent_fractions = same_field transmit_fractions reply ∙ right.transmit_fractions;
        is_sent = is_sent;
      }

  module _ (sntp : IsCoreSntp p.sntp) (codec : IsCodec p) where
    -- What the library makes of a request, and the bytes that leave.
    serialized_facts :
        (w : World ClientState) (request : Bytes)
        → length w.net_buf ≡ p.sntp.packet_size
        → request ≡ take p.sntp.packet_base_size (serialized p w).2
        → let r = serialized p w in
          (request ≡ r.2)
          × (r.0 ≡ p.sntp.success)
          × (length r.2 ≡ p.sntp.packet_size)
          × AreBytes r.2
          × (field_bytes p transmit_seconds r.2 ≡ be32 r.1.seconds)
          × (field_bytes p transmit_fractions r.2 ≡ be32 r.1.fractions)
    serialized_facts w request size delivered =
        let r = serialized p w in
        let facts =
          codec.serializes (request_time p w).0 (p.answers.random (Call.random ∷ w.calls)) w.net_buf
            size in
        (
          delivered ∙ take_all p.sntp.packet_base_size r.2 (facts.1 ∙ sym sntp.base_size),
          facts.0,
          facts.1,
          facts.2,
          facts.3,
          facts.4,
        )

    -- The client's request has the size of a packet and is made of bytes.
    pub request_facts :
        (w : World ClientState) (request : Bytes)
        → length w.net_buf ≡ p.sntp.packet_size
        → request ≡ take p.sntp.packet_base_size (serialized p w).2
        → (length request ≡ q.sntp.packet_size) × AreBytes request
    request_facts w request size delivered =
        let (held, good, long, bytes, seconds, fractions) =
          serialized_facts w request size delivered in
        (ap length held ∙ long ∙ rfc.size ∙ sym rfc'.size, rw held bytes)

    -- A query is a success whenever a right reply to its request comes back.
    pub run_sntp_query_replied :
        (w : World ClientState) (level : ℕ) (request reply : Bytes) (received sent : Timestamp)
        → length w.net_buf ≡ p.sntp.packet_size
        → is_negative (p.answers.ret (request_call p w ∷ (request_time p w).1.calls)) ≡ false
        → request ≡ take p.sntp.packet_base_size (serialized p w).2
        → IsReply q level request received sent reply
        → p.answers.ret (read_call p (requested p w)) ≡ pos p.sntp.packet_base_size
        → (datagram p (requested p w)).bytes ≡ reply
        → level % 256 ≢ 0
        → fixed_point (serialized p w).1 ≢ 0
        → fixed_point received ≢ 0
        → fixed_point sent ≢ 0
        → fixed_point (arrival_time p (requested p w)) ≢ 0
        → (run_sntp_query p w).0 ≡ some p.sntp.success
    run_sntp_query_replied w level request reply received sent size leaves delivered right comes got
          no_kiss is_asked is_received is_sent is_arrival =
        let r = serialized p w in
        let (held, good, long, bytes, seconds, fractions) =
          serialized_facts w request size delivered in
        let base = sntp.base_size ∙ rfc.size in
        let full : write 0 (datagram p (requested p w)).bytes r.2 ≡ reply =
          overwrite_full _ _ (ap length got ∙ right.size ∙ rfc'.size ∙ sym (long ∙ rfc.size))
          ∙ got in
        let acceptable =
          IsReply-IsAcceptable level request reply r.1 _ _ right
            (ap (field_bytes p transmit_seconds) held ∙ seconds)
            (ap (field_bytes p transmit_fractions) held ∙ fractions) no_kiss is_received is_sent in
        run_sntp_query_awaits p w good leaves
        ∙ ap some (
            await_response_accepts p r.1 (requested p w) (omega arith) comes
              (rw full (codec.accepts r.1 _ reply is_asked is_arrival acceptable)))
