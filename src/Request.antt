-- ===== src/Request.antt =====
-- `process_sntp_request` of fsw/src/sntp.c: a datagram in the receive buffer is answered.
pub mod Laws
pub mod Reply
pub mod Times
pub mod Wire
pub mod Order
pub mod Socket
use Prim.Native.Nat.{bit_or}
use mathlib.Core.Option
use cfe_sntp.Base.{
  ℕ, ◌*◌, ◌^◌, not, Bytes, replicate, ℤ, is_negative, ◌==ℤ◌, [], some, if◌then◌else◌,
}
use cfe_sntp.Platform.{
  Platform, leap_version_mode, stratum, ref_id, origin_seconds, origin_fractions, receive_seconds,
  receive_fractions, transmit_seconds, transmit_fractions, Call,
}
use cfe_sntp.World.{M, pure, ◌>>=◌, ◌>>◌, get_net_buf, call, observe}
use cfe_sntp.Packet.{Slot, store_field, store_time, load_time, encode_time, deserialize_request}
use cfe_sntp.Clock.{get_current_sntp_time}

abbrev pub origin_slot : Slot
origin_slot = record { seconds_at = origin_seconds; fractions_at = origin_fractions }

abbrev pub receive_slot : Slot
receive_slot = record { seconds_at = receive_seconds; fractions_at = receive_fractions }

abbrev pub transmit_slot : Slot
transmit_slot = record { seconds_at = transmit_seconds; fractions_at = transmit_fractions }

module _ (p : Platform) where
  -- The members that are set between the two readings of the clock.
  unfoldable pub set_details : ℕ → Bytes → Bytes → Bytes
  set_details level request response =
      let r1 =
        store_time p origin_slot (encode_time p (load_time p transmit_slot request)) response in
      let mode = bit_or p.sntp.mode_server (p.sntp.version * 2 ^ p.sntp.version_lsb_position) in
      let r2 = store_field p leap_version_mode mode r1 in
      let r3 = store_field p stratum level r2 in
      store_field p ref_id (p.host.htonl p.sntp.kiss_of_death_code_none) r3

module _ {ℓ} {S : Type ℓ} (p : Platform) where
  -- `sendto`, and the status that its result gives.
  unfoldable pub send_response : ℤ → Bytes → Bytes → ℕ → M S ℤ
  send_response sockfd response client_addr client_len = do
    sent ← call p (Call.sendto sockfd response client_addr client_len)
    if is_negative sent
        then (call p (Call.os_printf "ERROR: Unable to send reply\n" [])
            >> pure p.sntp.error_network_failure)
        else pure p.sntp.success

  -- The socket and the stratum are arguments: the app and the test server differ in them only.
  unfoldable pub answer_request : ℤ → ℕ → Bytes → ℕ → M S ℤ
  answer_request sockfd level client_addr client_len = do
    unset ← observe p.answers.unset_time
    local ← observe p.answers.unset_packet
    time ← get_current_sntp_time p unset
    let response = store_time p receive_slot (encode_time p time) (replicate p.sntp.packet_size 0)
    buf ← get_net_buf
    let (status, filled) = deserialize_request p buf (some local)
    let request = Option.get_or filled local
    if not (status ==ℤ p.sntp.success)
        then (call p (Call.os_printf "ERROR: Invalid request\n" []) >> pure status)
        else do
          time' ← get_current_sntp_time p time
          let response' =
              store_time p transmit_slot (encode_time p time')
                (set_details p level request response)
          send_response sockfd response' client_addr client_len
