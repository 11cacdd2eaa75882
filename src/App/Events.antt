-- ===== src/App/Events.antt =====
-- The events that the app may send, by their ids and types.
pub mod Laws
use cfe_sntp.Base.{ℕ, ◌≡◌, ◌⊎◌, List, [], ◌∷◌}
use cfe_sntp.Platform.{Call}
use cfe_sntp.App.{
  startup_inf_eid, command_err_eid, commandnop_inf_eid, commandrst_inf_eid, invalid_msgid_err_eid,
  len_err_eid,
}

-- Three ids are for information, three for errors.
abbrev pub IsInformation : ℕ → Type 0
IsInformation eid =
    (eid ≡ startup_inf_eid) ⊎ (eid ≡ commandnop_inf_eid) ⊎ (eid ≡ commandrst_inf_eid)

abbrev pub IsError : ℕ → Type 0
IsError eid = (eid ≡ command_err_eid) ⊎ (eid ≡ invalid_msgid_err_eid) ⊎ (eid ≡ len_err_eid)

abbrev pub AllKnown : List Call → Type 0
AllKnown [] = Unit
AllKnown (Call.send_information eid format arguments ∷ h) = IsInformation eid × AllKnown h
AllKnown (Call.send_error eid format arguments ∷ h) = IsError eid × AllKnown h
AllKnown (_ ∷ h) = AllKnown h
