-- ===== src/Middleware/ToolHandler/Logged.antt =====
-- What `runTool` of src/middleware/tool-handler.ts answers, throws and logs.
use ccu_mcp.Prelude.{ℕ, String, ◌≡◌, refl, ◌∙◌, Option, none, some, [], ◌∷◌, arith, eq_iff}
use ccu_mcp.Prelude.Dict.{Dict, Distinct, get, set, get-set}
use ccu_mcp.Errors.{ccu, other}
use ccu_mcp.Action.{Outcome, ok, thrown, Action}
use ccu_mcp.Middleware.ToolHandler.{
  Answer, result, mcp_error, Level, info, error, LogLine, Fields, Traced, spread, begin, run_tool,
  settle_tool, ended_ok, ended_error, ended_crash,
}

module _ {V : Type 0} where
  abbrev or_base : Option V → Option V → Option V
  or_base none b = b
  or_base (some v) b = some v

  get-spread :
      (base fields : Dict V) (k : String)
      → Distinct fields
      → get (spread base fields) k ≡ or_base (get fields k) (get base k)
  unfolding spread get
  get-spread base [] k h = refl
  get-spread base ((j, v) ∷ fields) k (fresh, h) =
      get-spread (set base j v) fields k h ∙ ground (arith, get-set base j k v, eq_iff j k)

-- How a tool ends: the answer, the level of its line and the status there.
abbrev pub answer_of : {R : Type 0} → Outcome R → Outcome (Answer R)
answer_of (ok r) = ok (result r)
answer_of (thrown (ccu e)) = ok (mcp_error e)
answer_of (thrown (other e)) = thrown (other e)

abbrev pub level_of : {R : Type 0} → Outcome R → Level
level_of (ok r) = info
level_of (thrown (ccu e)) = info
level_of (thrown (other e)) = error

abbrev pub status_of : {R : Type 0} → Outcome R → String
status_of (ok r) = "ok"
status_of (thrown (ccu e)) = "error"
status_of (thrown (other e)) = "crash"

module _ {S V R : Type 0} (f : Fields V) (clock : S → ℕ) (tool : String) where
  -- A line that tells how a body ended, with all that the body gave.
  pub record Tells (o : Outcome R) (extra : Dict V) (line : LogLine V) : Type 0 where
    pub is_level : line.level ≡ level_of o
    pub is_status : get line.fields "status" ≡ some (f.said (status_of o))
    pub is_tool : get line.fields "tool" ≡ some (f.said tool)
    pub keeps : (k : String) (v : V) → get extra k ≡ some v → get line.fields k ≡ some v

  -- The line of a base that has the status, under fields that have none.
  spread_tells :
      (o : Outcome R) (extra base : Dict V)
      → Distinct extra
      → get extra "status" ≡ none
      → get extra "tool" ≡ none
      → get base "status" ≡ some (f.said (status_of o))
      → get base "tool" ≡ some (f.said tool)
      → Tells o extra
          (record { level = level_of o; event = "tool_call"; fields = spread base extra })
  spread_tells o extra base d no_status no_tool status named = record {
    is_level = refl;
    is_status = get-spread base extra "status" d ∙ rw (no_status, status) refl;
    is_tool = get-spread base extra "tool" d ∙ rw (no_tool, named) refl;
    keeps = λ k v h. get-spread base extra k d ∙ rw h refl;
  }

  settled :
      (start : ℕ) (o : Outcome R) (s : Traced S V)
      → Distinct s.extra
      → get s.extra "status" ≡ none
      → get s.extra "tool" ≡ none
      → (line : LogLine V) × (settle_tool f clock tool start o s
          ≡ (answer_of o, record s { lines = line ∷ s.lines }))
        × Tells o s.extra line
  unfolding get
  settled start (ok r) s d h k =
      (_, refl, spread_tells (ok r) s.extra (ended_ok f clock tool start s.state) d h k refl refl)
  settled start (thrown (ccu e)) s d h k = (
    _,
    refl,
    spread_tells (thrown (ccu e)) s.extra (ended_error f clock tool start s.state e) d h k refl
        refl,
  )
  settled start (thrown (other e)) s d h k = (
    _,
    refl,
    spread_tells (thrown (other e)) s.extra (ended_crash f clock tool start s.state e) d h k refl
        refl,
  )

  -- A tool answers or throws as its body ended, where a `CcuError` becomes an answer, with the state that
  -- the body left. It adds one line to the log, which has the status of that end, the level `error` for
  -- anything but a result or a `CcuError`, the tool's name and all the fields that the body gave, where these
  -- are neither called `status` nor `tool`.
  pub run_tool-logged :
      (body : Action (Traced S V) R) (s : Traced S V)
      → Distinct (body (begin f clock tool s)).1.extra
      → get (body (begin f clock tool s)).1.extra "status" ≡ none
      → get (body (begin f clock tool s)).1.extra "tool" ≡ none
      → let (o, s') = body (begin f clock tool s) in
        (line : LogLine V) × (run_tool f clock tool body s
          ≡ (answer_of o, record s' { lines = line ∷ s'.lines }))
        × Tells o s'.extra line
  unfolding run_tool
  run_tool-logged body s d h k =
      settled (clock s.state) (body (begin f clock tool s)).0 (body (begin f clock tool s)).1 d h k
