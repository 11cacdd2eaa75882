-- ===== src/App/Command/Laws.antt =====
-- What a command may do: one message to the ground, and changes of the telemetry only.
use cfe_sntp.Base.{ℕ, ◌%◌, ◌^◌, ◌≡◌, ◌≢◌, ◌⊎◌, [], ◌∷◌, Bytes, true, arith}
use cfe_sntp.Telemetry.{Payload, noop_cc, reset_counters_cc, zero_payload}
use cfe_sntp.Platform.{Platform, Call, Arg, Address}
use cfe_sntp.Platform.Laws.{IsCfe}
use cfe_sntp.World.{World}
use cfe_sntp.App.{
  SntpData, cmd_mid, send_hk_mid, command_err_eid, commandnop_inf_eid, commandrst_inf_eid,
  len_err_eid, invalid_msgid_err_eid,
}
use cfe_sntp.App.Command.{
  verify_cmd_length, noop, reset_counters, report_housekeeping, process_ground_command,
  process_command_packet, count_error, count_command,
}

-- The events that the commands send.
abbrev pub noop_event : Call
noop_event =
    Call.send_information commandnop_inf_eid "SNTP: NOOP command %s"
      (Arg.text "v1.3.0-rc4+dev21" ∷ [])

abbrev pub reset_event : Call
reset_event = Call.send_information commandrst_inf_eid "SNTP: RESET command" []

abbrev pub code_event : ℕ → Call
code_event cc =
    Call.send_error command_err_eid "Invalid ground command code: CC = %d" (Arg.nat cc ∷ [])

abbrev pub msg_id_event : ℕ → Call
msg_id_event mid =
    Call.send_error invalid_msgid_err_eid "SNTP: invalid command packet,MID = 0x%x"
      (Arg.nat (mid % 2 ^ 32) ∷ [])

module _ (p : Platform) where
  abbrev code : Bytes → ℕ
  code msg = p.cfe.get_fcn_code msg

  abbrev HasLength : Bytes → Type 0
  HasLength msg = p.cfe.get_size msg ≡ p.cfe.command_header_size

  -- What is left after a ground command: the counters, and one event.
  abbrev pub Becomes : World SntpData → Payload → Call → World SntpData → Type 0
  Becomes w cnts event w' =
      (w'.state ≡ record (w.state) { cnts = cnts })
      × (w'.calls ≡ event ∷ w.calls)
      × (w'.net_buf ≡ w.net_buf)

  abbrev pub length_event : Bytes → ℕ → Call
  length_event msg expected =
      Call.send_error len_err_eid "Invalid Msg length: ID = 0x%X,  CC = %u, Len = %u, Expected = %u"
        (Arg.nat (p.cfe.msg_id_to_value (p.cfe.get_msg_id msg) % 2 ^ 32)
          ∷ Arg.nat (code msg % 2 ^ 32)
          ∷ Arg.nat (p.cfe.get_size msg % 2 ^ 32)
          ∷ Arg.nat (expected % 2 ^ 32)
          ∷ [])

  -- A ground command has one of four fates, and each sends exactly one event. A NOOP of the right
  -- length is counted. A reset of the right length clears all counters, its own too. A known code
  -- with a wrong length counts an error and does nothing else. An unknown code changes no counter.
  -- The rest of the state, and the receive buffer, stay as they were.
  pub process_ground_command_fates :
      (msg : Bytes) (w : World SntpData)
      → let w' = (process_ground_command p msg w).1 in
        let c = w.state.cnts in
        ((code msg ≡ noop_cc) × HasLength msg × Becomes w (count_command c) noop_event w')
        ⊎ ((code msg ≡ reset_counters_cc) × HasLength msg × Becomes w zero_payload reset_event w')
        ⊎ (((code msg ≡ noop_cc) ⊎ (code msg ≡ reset_counters_cc))
            × (¬ HasLength msg)
            × Becomes w (count_error c) (length_event msg p.cfe.command_header_size) w')
        ⊎ ((code msg ≢ noop_cc)
            × (code msg ≢ reset_counters_cc)
            × Becomes w c (code_event (code msg)) w')
  unfolding process_ground_command verify_cmd_length noop reset_counters
  process_ground_command_fates msg w = ground arith

  -- A packet of the command pipe takes one of three routes, by its message id. The command id leads
  -- to the ground commands. The housekeeping id sends one packet, whose payload is the counters and
  -- which the app keeps, and changes no counter. Any other sends one error event with the id and
  -- changes nothing. The platform's time stamp must leave a payload alone.
  pub process_command_packet_routes :
      (cfe : IsCfe p) (msg : Bytes) (w : World SntpData)
      → let r = process_command_packet p msg w in
        let mid = p.cfe.msg_id_to_value (p.cfe.get_msg_id msg) in
        ((mid ≡ cmd_mid p) × (r ≡ process_ground_command p msg w))
        ⊎ ((mid ≡ send_hk_mid p)
            × (r.1.calls
                ≡ Call.transmit_msg Address.hk_tlm true r.1.state.hk_tlm
                  ∷ Call.time_stamp_msg Address.hk_tlm
                  ∷ w.calls)
            × (r.1.state.hk_tlm.payload ≡ w.state.cnts)
            × (r.1.state ≡ record (w.state) { hk_tlm = r.1.state.hk_tlm }))
        ⊎ ((mid ≢ cmd_mid p)
            × (mid ≢ send_hk_mid p)
            × (r.1.state ≡ w.state)
            × (r.1.calls ≡ msg_id_event mid ∷ w.calls))
  unfolding process_command_packet report_housekeeping
  process_command_packet_routes cfe msg w = ground (
    arith,
    cfe.payload-time_stamp_msg (Call.time_stamp_msg Address.hk_tlm ∷ w.calls)
        (record (w.state.hk_tlm) { payload = w.state.cnts }),
  )
