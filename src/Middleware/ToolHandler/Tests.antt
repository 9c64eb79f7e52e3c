-- ===== src/Middleware/ToolHandler/Tests.antt =====
-- `runTool` around a body that gives a field and fails.
use ccu_mcp.Prelude.{ℕ, String, ◌≡◌, refl, none, [], ◌∷◌}
use ccu_mcp.Prelude.Dict.{Distinct, get, set}
use ccu_mcp.Errors.{ErrorCategory, not_found, plain_error, ccu}
use ccu_mcp.Action.{Action, throw, ◌>>◌}
use ccu_mcp.Middleware.ToolHandler.{LogLine, Fields, Traced, spread, log, begin, run_tool}
use ccu_mcp.Middleware.ToolHandler.Logged.{answer_of, Tells, run_tool-logged}

data Field : Type 0 where
  said : String → Field
  category : ErrorCategory → Field
  between : ℕ → ℕ → Field

abbrev fields : Fields Field
fields = record { said = said; category = category; between = between }

-- The state is the clock.
abbrev clock : ℕ → ℕ
clock t = t

abbrev body : Action (Traced ℕ Field) (Unit {0})
body =
    log (("address", said "A1:1") ∷ []) >> throw (ccu (plain_error not_found "gone" "look again"))

abbrev start : Traced ℕ Field
start = record { state = 7; lines = []; extra = [] }

given : Distinct (body (begin fields clock "get_value" start)).1.extra
unfolding log spread set get
given = (refl, tt)

no_status : get (body (begin fields clock "get_value" start)).1.extra "status" ≡ none
unfolding log spread set get
no_status = refl

no_tool : get (body (begin fields clock "get_value" start)).1.extra "tool" ≡ none
unfolding log spread set get
no_tool = refl

run_tool-logged_example :
    let (o, s') = body (begin fields clock "get_value" start) in
    (line : LogLine Field) × (run_tool fields clock "get_value" body start
      ≡ (answer_of o, record s' { lines = line ∷ s'.lines }))
    × Tells fields clock "get_value" o s'.extra line
run_tool-logged_example =
    run_tool-logged fields clock "get_value" body start given no_status no_tool
