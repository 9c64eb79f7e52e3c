-- ===== src/Tools/Targets/Tests.antt =====
-- Switching between a development and a production CCU (src/tools/targets.ts).
use ccu_mcp.Prelude.{
  String, true, false, ◌≡◌, ap, ◌⊎◌, none, some, List, [], ◌∷◌, arith, filter, ◌===◌, eq_iff, codes,
  if◌then◌else◌,
}
use ccu_mcp.Errors.{StructuredError, not_found}
use ccu_mcp.Action.{ok}
use ccu_mcp.Middleware.ToolHandler.{result, mcp_error}
use ccu_mcp.Ccu.Targets.{Profile, Naming, create}
use ccu_mcp.Ccu.Targets.Selecting.{HasDistinctKeys, find}
use ccu_mcp.Tools.Targets.{
  Live, TargetInfo, SwitchState, list_ccu_targets, get_connection_info, use_ccu,
}
use ccu_mcp.Tools.Targets.Listed.{use_ccu-listed}

abbrev lower : String → String
lower s = if s === "PROD" then "prod" else s

lower_idem : (s : String) → lower (lower s) ≡ lower s
lower_idem s = ground (arith, eq_iff s "PROD", eq_iff "prod" "PROD")

abbrev naming : Naming
naming = record { lower = lower; lower_idem = lower_idem; digest = λ s. codes "00000001" }

abbrev profiles : List Profile
profiles =
    record { name = "dev"; protected = false; readonly = false }
    ∷ record { name = "PROD"; protected = true; readonly = false }
    ∷ []

distinct : HasDistinctKeys naming profiles
distinct = ((λ e. cc (ap (λ (s : String). s === "prod") e), tt), (tt, tt))

abbrev live : Live
live = record {
  connection = λ p. record { host = "ccu.local"; port = 443; user = "Admin"; https = true };
  is_logged_in = λ t. false;
  is_stale = λ t. true;
  is_warming = λ t. false;
}

abbrev start : SwitchState
start = record { selection = record { active_key = "dev"; unlocked_keys = [] }; warms = [] }

use_ccu-listed_example :
    let r = create naming profiles "dev" in
    let (o, s') = use_ccu live naming r "prod" start in
    ((p : Profile) × (info : TargetInfo) × (ts : List TargetInfo) × (find naming
          (lower "prod")
          profiles
        ≡ some p)
      × (o ≡ ok (result info))
      × (info.name ≡ p.name)
      × (info.connection ≡ live.connection p)
      × ((list_ccu_targets live naming r s').0 ≡ ok ts)
      × (filter (λ i. i.is_active) ts ≡ info ∷ [])
      × ((get_connection_info live naming r s').0 ≡ ok info))
    ⊎ ((e : StructuredError) × (find naming (lower "prod") profiles ≡ none)
        × (o ≡ ok (mcp_error e))
        × (e.error ≡ not_found)
        × (s' ≡ start))
use_ccu-listed_example = use_ccu-listed live naming profiles "dev" "prod" start distinct
