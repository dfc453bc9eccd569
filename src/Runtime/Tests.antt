-- ===== src/Runtime/Tests.antt =====
-- Runs of the client of the runtime socket (internal/proxy/runtime.go).
use portguard_v.Base.{◌≡◌, refl, List, [], ◌∷◌, Option, some, Text, codes, eqb, trim_left, All}
use portguard_v.Service.Apply.{trim_newlines}
use portguard_v.Runtime.{
  Request, set_state, enable, serve, set_server_state, enable_server, switch_server, send_command,
}
use portguard_v.Runtime.Safe.{IsCommand, serve-IsCommand}

abbrev requests : List Request
requests =
    set_state (codes "be_pg4") (codes "s0") (codes "drain")
    ∷ enable (codes "be_pg4") (codes "s0;shutdown")
    ∷ []

abbrev quiet : Text → Option Text
quiet line = some []

lines_sent : serve quiet requests [] ≡ codes "set server be_pg4/s0 state drain\n" ∷ []
unfolding serve set_server_state enable_server switch_server send_command trim_newlines trim_left
    eqb
lines_sent = refl

serve-IsCommand_example : All IsCommand (serve quiet requests [])
serve-IsCommand_example = serve-IsCommand quiet requests [] tt
