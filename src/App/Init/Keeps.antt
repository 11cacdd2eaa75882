-- ===== src/App/Init/Keeps.antt =====
-- What the initialisation keeps: whatever its calls and changes of the state keep.
use Prim.Native.String.{String}
use cfe_sntp.Base.{refl, [], ◌%◌, ◌^◌, ◌≡◌, ◌∷◌, ℤ, ◌==ℤ◌, is_negative, Bool-cases, inl, inr}
use cfe_sntp.Platform.{Platform, Call}
use cfe_sntp.World.{World, M, call}
use cfe_sntp.Socket.{init_udp_socket, receive_timeout}
use cfe_sntp.App.{SntpData, hk_tlm_mid, pipe_depth_max, cmd_mid, send_hk_mid, sntp_port, perf_id}
use cfe_sntp.App.Init.Cases.{entry, fail_or_cases}
use cfe_sntp.App.Init.{pipe_name, init, prepare, subscribe, open_socket, fail_or}
use cfe_sntp.App.Main.{start}

-- The calls that the start of the app makes.
abbrev pub IsSetup : Call → Type 0
IsSetup (Call.perf_log_entry id) = Unit
IsSetup Call.evs_register = Unit
IsSetup (Call.create_pipe depth name) = Unit
IsSetup (Call.subscribe id pipe) = Unit
IsSetup (Call.write_to_sys_log format arguments) = Unit
IsSetup (Call.os_printf format arguments) = Unit
IsSetup Call.socket = Unit
IsSetup (Call.bind fd port) = Unit
IsSetup (Call.setsockopt_rcvtimeo fd seconds) = Unit
IsSetup (Call.close fd) = Unit
IsSetup (Call.perror text) = Unit
IsSetup (Call.send_information eid format arguments) = eid ≡ 1
IsSetup _ = ⊥

module _ (p : Platform) (P : World SntpData → Type 0)
    (puts : (s : SntpData) (w : World SntpData) → P w → P (record w { state = s }))
    (issues : (c : Call) (w : World SntpData) → IsSetup c → P w → P (call p c w).1) where
  init_udp_socket-keeps : (w : World SntpData) → P w → P (init_udp_socket p sntp_port w).1
  unfolding init_udp_socket
  init_udp_socket-keeps w holds =
      let fd = p.answers.ret (Call.socket ∷ w.calls) in
      let binding = Call.bind fd (p.host.htons (sntp_port % 2 ^ 16)) in
      let v = (call p Call.socket w).1 in
      let u = (call p binding v).1 in
      let created : P v = issues Call.socket w tt holds in
      let bound : P u = issues binding v tt created in
      elim (Bool-cases (is_negative fd)) [
        | inl bad ↦ rw bad (issues (Call.perror "Error creating socket") v tt created)
        | inr good ↦ rw good (elim (Bool-cases (is_negative (p.answers.ret (binding ∷ v.calls)))) [
          | inl bad ↦ rw bad (
              issues (Call.close fd) _ tt
                (issues (Call.perror "Error binding to server port") u tt bound))
          | inr good' ↦ rw good' (issues (Call.setsockopt_rcvtimeo fd receive_timeout) u tt bound)
        ])
      ]

  open_socket-keeps : (w : World SntpData) → P w → P (open_socket p w).1
  unfolding open_socket
  open_socket-keeps w holds =
      let r = init_udp_socket p sntp_port w in
      let v : World SntpData = record (r.1) { state = record (r.1.state) { sockfd = r.0 } } in
      let opened : P v =
        puts (record (r.1.state) { sockfd = r.0 }) r.1 (init_udp_socket-keeps w holds) in
      elim (Bool-cases (is_negative r.0)) [
        | inl bad ↦ rw bad (issues _ v tt opened)
        | inr good ↦ rw good (issues _ v refl opened)
      ]

  fail_or-keeps :
      (text : String) (status : ℤ) (rest : M SntpData ℤ) (w : World SntpData)
      → P w
      → P (rest w).1
      → P (fail_or p text status rest w).1
  fail_or-keeps text status rest w holds after =
      fail_or_cases p (λ _ v. P v) text status rest w (λ good. after)
        (λ bad. issues (entry p text status) w tt holds)

  subscribe-keeps : (w : World SntpData) → P w → P (subscribe p w).1
  unfolding subscribe
  subscribe-keeps w holds =
      let first =
        issues (Call.subscribe (p.cfe.value_to_msg_id (send_hk_mid p)) w.state.command_pipe) w tt
          holds in
      let second =
        issues (Call.subscribe (p.cfe.value_to_msg_id (cmd_mid p)) w.state.command_pipe) _ tt
          first in
      fail_or-keeps _ _ _ _ first (fail_or-keeps _ _ _ _ second (open_socket-keeps _ second))

  init-keeps : (w : World SntpData) → P w → P (init p w).1
  unfolding init prepare
  init-keeps w holds =
      let v = (prepare p w).1 in
      let prepared : P v = puts v.state w holds in
      let u = (call p Call.evs_register v).1 in
      let registered : P u = issues Call.evs_register v tt prepared in
      let packet =
        p.cfe.msg_init u.state.hk_tlm (p.cfe.value_to_msg_id (hk_tlm_mid p)) p.cfe.hk_tlm_size in
      let cleared : SntpData = record (u.state) { hk_tlm = packet } in
      let making = Call.create_pipe pipe_depth_max (pipe_name p.cfe.max_api_len) in
      let made = issues making (record u { state = cleared }) tt (puts cleared u registered) in
      let pipe = p.answers.pipe_id (making ∷ u.calls) in
      let piped = puts (record cleared { command_pipe = pipe }) _ made in
      fail_or-keeps _ _ _ _ registered (fail_or-keeps _ _ _ _ piped (subscribe-keeps _ piped))

  pub start-keeps : (w : World SntpData) → P w → P (start p w).1
  unfolding start
  start-keeps w holds =
      let entered = (call p (Call.perf_log_entry perf_id) w).1 in
      let r = init p entered in
      let begun : P r.1 = init-keeps entered (issues (Call.perf_log_entry perf_id) w tt holds) in
      elim (Bool-cases (r.0 ==ℤ p.cfe.success)) [
        | inl good ↦ rw good begun
        | inr bad ↦
            rw bad (puts _ _ (issues (Call.os_printf "SNTP Init Failed!\n" []) r.1 tt begun))
      ]
