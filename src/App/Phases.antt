-- ===== src/App/Phases.antt =====
-- The order of the calls of the app, as a machine that reads a history and knows in which phase the
-- app is.
pub mod Laws
use cfe_sntp.Base.{Bool, true, false, List, [], ◌∷◌, if◌then◌else◌}
use cfe_sntp.Platform.{Call}

pub data Phase : Type 0 where
  initialising tested : Phase
  paused polled commanding : Phase
  reading timed timed_twice answered reported : Phase
  leaving left gone : Phase
  lost : Phase  -- a call was out of order

-- The phases after which the run loop is tested: before the first round, and at the end of a round
-- whose read brought nothing to do, was answered or was reported.
abbrev pub may_test : Phase → Bool
may_test initialising = true
may_test reading = true
may_test answered = true
may_test reported = true
may_test _ = false

-- The calls of the command handlers.
abbrev pub is_commanding : Call → Bool
is_commanding (Call.os_printf format arguments) = true
is_commanding (Call.send_information eid format arguments) = true
is_commanding (Call.send_error eid format arguments) = true
is_commanding (Call.time_stamp_msg address) = true
is_commanding (Call.transmit_msg address counted packet) = true
is_commanding _ = false

-- The calls of the initialisation.
abbrev pub is_initialising : Call → Bool
is_initialising (Call.perf_log_entry id) = true
is_initialising Call.evs_register = true
is_initialising (Call.create_pipe depth name) = true
is_initialising (Call.subscribe mid pipe) = true
is_initialising (Call.write_to_sys_log format arguments) = true
is_initialising (Call.os_printf format arguments) = true
is_initialising Call.socket = true
is_initialising (Call.bind fd port) = true
is_initialising (Call.setsockopt_rcvtimeo fd seconds) = true
is_initialising (Call.close fd) = true
is_initialising (Call.perror text) = true
is_initialising (Call.send_information eid format arguments) = true
is_initialising _ = false

-- The phase after a call.
abbrev pub next : Phase → Call → Phase
next initialising (Call.run_loop status) = tested
next initialising c = if is_initialising c then initialising else lost
next tested (Call.perf_log_exit id) = paused
next tested (Call.os_printf format arguments) = leaving
next paused (Call.poll_buffer pipe) = polled
next polled (Call.perf_log_entry id) = commanding
next commanding (Call.recvfrom fd size) = reading
next commanding c = if is_commanding c then commanding else lost
next reading (Call.run_loop status) = tested
next reading (Call.os_printf format arguments) = reported
next reading Call.get_utc = timed
next reading Call.clock_gettime = timed
next timed (Call.perror text) = timed
next timed Call.get_utc = timed_twice
next timed Call.clock_gettime = timed_twice
next timed_twice (Call.perror text) = timed_twice
next timed_twice (Call.sendto fd bytes addr len) = answered
next answered (Call.os_printf format arguments) = answered
next answered (Call.run_loop status) = tested
next reported (Call.run_loop status) = tested
next leaving (Call.perf_log_exit id) = left
next left (Call.exit_app status) = gone
next _ _ = lost

abbrev pub follow : List Call → Phase
follow [] = initialising
follow (c ∷ h) = next (follow h) c
