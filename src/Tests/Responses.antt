-- ===== src/Tests/Responses.antt =====
-- A scripted run of the app: what is seen of it, its responses, its command pipe, its fuel.
use cfe_sntp.Base.{◌≡◌, ◌≢◌, ◌⊎◌, ◌∷◌, List, refl, true, pos, arith}
use cfe_sntp.Platform.{Call}
use cfe_sntp.Platform.Example.{
  little_endian-IsHost, playing-IsAnswers, playing-IsCfe, rfc_sntp-IsCoreSntp,
}
use cfe_sntp.App.Init.{init}
use cfe_sntp.App.Main.{sntp_main}
use cfe_sntp.App.Main.Exit.{entered}
use cfe_sntp.App.Pipe.{listening, pipe_after, AllListening}
use cfe_sntp.App.Pipe.Laws.{sntp_main-AllListening}
use cfe_sntp.App.Responses.{IsAnswered}
use cfe_sntp.App.Responses.Laws.{sntp_main-IsAnswered}
use cfe_sntp.App.Main.Fuel.{sntp_main_total}
use cfe_sntp.App.Server.{Serves}
use cfe_sntp.App.Server.Laws.{sntp_main-Serves}
use cfe_sntp.Tests.App.{example-FillsPackets, example-StopsBy}
use cfe_sntp.Tests.Data.{blank, example, script}

sntp_main-IsAnswered_example : IsAnswered example (sntp_main example 10 blank).1
sntp_main-IsAnswered_example =
    sntp_main-IsAnswered example (playing-IsCfe true script) 10 blank refl

sntp_main-AllListening_example :
    let r = (sntp_main example 10 blank).1 in
    AllListening example r.calls
    × (((init example (entered example blank)).0 ≢ pos 0)
        ⊎ (pipe_after example r.calls ≡ listening r.state.command_pipe))
sntp_main-AllListening_example =
    sntp_main-AllListening example (playing-IsCfe true script) 10 blank refl

sntp_main-Serves_example : Serves example (sntp_main example 10 blank).1
sntp_main-Serves_example =
    sntp_main-Serves example little_endian-IsHost (playing-IsCfe true script) rfc_sntp-IsCoreSntp
      (playing-IsAnswers true script) example-FillsPackets 10 blank refl refl

sntp_main_total_example :
    let r = sntp_main example 10 blank in
    (r.0 ≡ true)
    × (r ≡ sntp_main example 4 blank)
    × (rest : List Call) × (r.1.calls ≡ Call.exit_app r.1.state.run_status ∷ rest)
sntp_main_total_example = sntp_main_total example 3 10 blank example-StopsBy (omega arith)
