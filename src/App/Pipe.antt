-- ===== src/App/Pipe.antt =====
-- The command pipe of the app (fsw/src/sntp.c), as a machine that reads the history of calls.
pub mod Laws
use cfe_sntp.Base.{ℕ, ◌≡◌, ◌&&◌, List, [], ◌∷◌, ◌==◌, ◌==ℤ◌, if◌then◌else◌}
use cfe_sntp.Platform.{Platform, Call}
use cfe_sntp.App.{cmd_mid, send_hk_mid}

-- `listening` has both subscriptions.
pub data PipeState : Type 0 where
  absent : PipeState
  made half listening : ℕ → PipeState

module _ (p : Platform) where
  -- What a subscription that succeeds does: the housekeeping request comes first.
  abbrev pub subscribe_to : ℕ → ℕ → PipeState → PipeState
  subscribe_to id pipe (made pipe') =
      if pipe == pipe' && id == p.cfe.value_to_msg_id (send_hk_mid p) then half pipe else made pipe'
  subscribe_to id pipe (half pipe') =
      if pipe == pipe' && id == p.cfe.value_to_msg_id (cmd_mid p)
      then listening pipe
      else half pipe'
  subscribe_to id pipe s = s

  abbrev pub pipe_after : List Call → PipeState
  pipe_after [] = absent
  pipe_after (Call.create_pipe depth name ∷ h) =
      let before = pipe_after h in
      if p.answers.ret (Call.create_pipe depth name ∷ h) ==ℤ p.cfe.success
      then made (p.answers.pipe_id (Call.create_pipe depth name ∷ h))
      else before
  pipe_after (Call.subscribe id pipe ∷ h) =
      let before = pipe_after h in
      if p.answers.ret (Call.subscribe id pipe ∷ h) ==ℤ p.cfe.success
      then subscribe_to id pipe before
      else before
  pipe_after (_ ∷ h) = pipe_after h

  -- Every poll was a poll of a pipe that was made and has both subscriptions.
  abbrev pub AllListening : List Call → Type 0
  AllListening [] = Unit
  AllListening (Call.poll_buffer pipe ∷ h) = (pipe_after h ≡ listening pipe) × AllListening h
  AllListening (_ ∷ h) = AllListening h

  -- The pipe is there after a history of such polls.
  pub record Listens (pipe : ℕ) (h : List Call) : Type 0 where
    pub now : pipe_after h ≡ listening pipe
    pub always : AllListening h
