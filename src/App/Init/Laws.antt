-- ===== src/App/Init/Laws.antt =====
-- The paths through `SNTP_Init` (fsw/src/sntp.c).
use cfe_sntp.Base.{
  ◌≡◌, ◌≢◌, refl, true, false, [], ◌∷◌, List, ℤ, negsuc, is_negative, arith, Bool-cases, inl, inr,
}
use cfe_sntp.Telemetry.{zero_payload}
use cfe_sntp.Platform.{Platform, Call}
use cfe_sntp.World.{World}
use cfe_sntp.Socket.Laws.{created, binding, opened, refused}
use cfe_sntp.Socket.{init_udp_socket}
use cfe_sntp.App.{SntpData, pipe_depth_max, cmd_mid, send_hk_mid, sntp_port, startup_inf_eid}
use cfe_sntp.App.Init.Cases.{entry, fail_or_cases}
use cfe_sntp.App.Init.{
  startup_format, startup_arguments, init, prepare, subscribe, open_socket, pipe_name,
}

module _ (p : Platform) where
  -- The calls up to each step, after the calls `h`.
  abbrev pub with_events : List Call → List Call
  with_events h = Call.evs_register ∷ h

  abbrev pub with_pipe : List Call → List Call
  with_pipe h = Call.create_pipe pipe_depth_max (pipe_name p.cfe.max_api_len) ∷ with_events h

  abbrev pub with_requests : List Call → List Call
  with_requests h =
      Call.subscribe (p.cfe.value_to_msg_id (send_hk_mid p)) (p.answers.pipe_id (with_pipe h))
      ∷ with_pipe h

  abbrev pub with_commands : List Call → List Call
  with_commands h =
      Call.subscribe (p.cfe.value_to_msg_id (cmd_mid p)) (p.answers.pipe_id (with_pipe h))
      ∷ with_requests h

  abbrev pub startup : Call
  startup = Call.send_information startup_inf_eid (startup_format p.use_cfe_time) startup_arguments

  abbrev pub all_steps : List Call → List Call
  all_steps h = startup ∷ opened p sntp_port (with_commands h)

  -- The entry in the system log for a socket that is missing.
  abbrev pub no_socket_entry : Call
  no_socket_entry = Call.write_to_sys_log "SNTP App: Error initializing UDP socket\n" []

  -- The step whose call is the last of `h` succeeded.
  abbrev pub Succeeds : List Call → Type 0
  Succeeds h = p.answers.ret h ≡ p.cfe.success

  -- It did not, with the status that is returned.
  abbrev pub FailsWith : ℤ → List Call → Type 0
  FailsWith status h = (status ≡ p.answers.ret h) × (status ≢ p.cfe.success)

  -- The ways through the initialisation, after the calls `h`: the status that is returned, the
  -- socket that the state holds then, and all the calls.
  pub data Route (h : List Call) : ℤ → ℤ → List Call → Type 0 where
    ready :
        Succeeds (with_events h)
        → Succeeds (with_pipe h)
        → Succeeds (with_requests h)
        → Succeeds (with_commands h)
        → is_negative (p.answers.ret (created p (with_commands h))) ≡ false
        → is_negative (p.answers.ret (binding p sntp_port (with_commands h))) ≡ false
        → Route h p.cfe.success (p.answers.ret (created p (with_commands h))) (all_steps h)
    no_events :
        {status sockfd : ℤ}
        → FailsWith status (with_events h)
        → Route h status sockfd
            (entry p "SNTP App: Error Registering Events, RC = 0x%08lX\n" status ∷ with_events h)
    no_pipe :
        {status sockfd : ℤ}
        → Succeeds (with_events h)
        → FailsWith status (with_pipe h)
        → Route h status sockfd
            (entry p "SNTP App: Error creating pipe, RC = 0x%08lX\n" status ∷ with_pipe h)
    no_requests :
        {status sockfd : ℤ}
        → Succeeds (with_events h)
        → Succeeds (with_pipe h)
        → FailsWith status (with_requests h)
        → Route h status sockfd (
            entry p "SNTP App: Error Subscribing to HK request, RC = 0x%08lX\n" status
            ∷ with_requests h)
    no_commands :
        {status sockfd : ℤ}
        → Succeeds (with_events h)
        → Succeeds (with_pipe h)
        → Succeeds (with_requests h)
        → FailsWith status (with_commands h)
        → Route h status sockfd (
            entry p "SNTP App: Error Subscribing to Command, RC = 0x%08lX\n" status
            ∷ with_commands h)
    no_socket :
        {sockfd : ℤ}
        → Succeeds (with_events h)
        → Succeeds (with_pipe h)
        → Succeeds (with_requests h)
        → Succeeds (with_commands h)
        → is_negative sockfd ≡ true
        → sockfd ≡ p.answers.ret (created p (with_commands h))
        → Route h p.cfe.external_resource_fail sockfd
            (no_socket_entry ∷ Call.perror "Error creating socket" ∷ created p (with_commands h))
    no_port :
        Succeeds (with_events h)
        → Succeeds (with_pipe h)
        → Succeeds (with_requests h)
        → Succeeds (with_commands h)
        → is_negative (p.answers.ret (created p (with_commands h))) ≡ false
        → is_negative (p.answers.ret (binding p sntp_port (with_commands h))) ≡ true
        → Route h p.cfe.external_resource_fail
            (negsuc 0)
            (no_socket_entry ∷ refused p sntp_port (with_commands h))

  -- The assignments before the first call were made, and the receive buffer is as it was.
  pub record IsPrepared (before now : World SntpData) : Type 0 where
    pub running : now.state.run_status ≡ p.cfe.app_run
    cleared : now.state.cnts ≡ zero_payload
    depth : now.state.pipe_depth ≡ pipe_depth_max
    name : now.state.pipe_name ≡ pipe_name p.cfe.max_api_len
    buffer : now.net_buf ≡ before.net_buf

  -- What holds of every way out: the calls and the socket are those of one of the routes.
  pub record Outcome (before : World SntpData) (status : ℤ) (after : World SntpData) : Type 0 where
    pub prepared : IsPrepared before after
    route : Route before.calls status after.state.sockfd after.calls

  module _ (before : World SntpData) (events : Succeeds (with_events before.calls))
      (pipe : Succeeds (with_pipe before.calls)) (requests : Succeeds (with_requests before.calls))
      (commands : Succeeds (with_commands before.calls)) where
    open_socket-Outcome :
        (s : SntpData)
        → let w = record before { state = s; calls = with_commands before.calls } in
          IsPrepared before w → Outcome before (open_socket p w).0 (open_socket p w).1
    unfolding open_socket init_udp_socket
    open_socket-Outcome s now =
        let h = with_commands before.calls in
        elim (Bool-cases (is_negative (p.answers.ret (created p h)))) [
          | inl fails ↦
              rw (fails, fails)
                (record {
                  prepared = ground arith;
                  route = no_socket events pipe requests commands fails refl;
                })
          | inr opens ↦ elim (Bool-cases (is_negative (p.answers.ret (binding p sntp_port h)))) [
            | inl fails ↦
                rw (opens, fails)
                  (record {
                    prepared = ground arith;
                    route = no_port events pipe requests commands opens fails;
                  })
            | inr binds ↦
                rw (opens, binds, opens)
                  (record {
                    prepared = ground arith;
                    route = ready events pipe requests commands opens binds;
                  })
          ]
        ]

  -- The initialisation leaves by one of seven routes. It succeeds, with a valid socket, after the
  -- calls of all its steps in their order: registration, the pipe, the two subscriptions to that
  -- pipe, the socket, its port 123, each of these with success, and then its timeout and the startup
  -- event, whose results are not looked at. Or one of the six steps before the timeout fails after
  -- the earlier ones succeeded: the status of that step is returned, or the status of a missing
  -- resource where it is the socket or its port, and the last call is the entry in the system log for
  -- it. Either way the counters are clear, the run status is that of a running app, the name and the
  -- depth of the pipe are set, and the receive buffer is untouched.
  pub init-Outcome : (w : World SntpData) → Outcome w (init p w).0 (init p w).1
  unfolding init prepare subscribe
  init-Outcome w =
      fail_or_cases p (Outcome w) _ _ _ _
        (λ events.
          fail_or_cases p (Outcome w) _ _ _ _
            (λ pipe.
              fail_or_cases p (Outcome w) _ _ _ _
                (λ requests.
                  fail_or_cases p (Outcome w) _ _ _ _
                    (λ commands.
                      open_socket-Outcome w events pipe requests commands _ (ground arith))
                    (λ bad. record {
                      prepared = (ground arith);
                      route = no_commands events pipe requests (refl, bad);
                    }))
                (λ bad. record {
                  prepared = (ground arith);
                  route = no_requests events pipe (refl, bad);
                }))
            (λ bad. record { prepared = (ground arith); route = no_pipe events (refl, bad) }))
        (λ bad. record { prepared = (ground arith); route = no_events (refl, bad) })
