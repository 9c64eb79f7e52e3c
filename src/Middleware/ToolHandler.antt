-- ===== src/Middleware/ToolHandler.antt =====
-- src/middleware/tool-handler.ts: `runTool`, around the body of every tool. `clock` is `Date.now()`. A field
-- of the log is of a type `V` of which a text, an error category and a duration between two times can be
-- made.
mod Logged
mod Tests
use ccu_mcp.Prelude.{ℕ, String, List, [], ◌∷◌}
use ccu_mcp.Prelude.Dict.{Dict, set}
use ccu_mcp.Errors.{ErrorCategory, StructuredError, Failure, ccu, other, JsError}
use ccu_mcp.Action.{Outcome, ok, thrown, Action, pure, throw}

-- A result, or what `toMcpError` makes of a `CcuError`.
pub data Answer (A : Type 0) : Type 0 where
  result : A → Answer A
  mcp_error : StructuredError → Answer A

-- `toMcpError` of a `CcuError`; anything else is thrown on.
abbrev pub to_answer : {S A : Type 0} → Failure → Action S (Answer A)
to_answer (ccu e) = pure (mcp_error e)
to_answer (other e) = throw (other e)

pub data Level : Type 0 where
  info : Level
  error : Level

pub record LogLine (V : Type 0) : Type 0 where
  pub level : Level
  pub event : String
  pub fields : Dict V

pub record Fields (V : Type 0) : Type 0 where
  pub said : String → V
  pub category : ErrorCategory → V
  pub between : (start end : ℕ) → V

-- The state with the lines of the log, newest first, and the fields that the body of a tool has given.
pub record Traced (S V : Type 0) : Type 0 where
  pub state : S
  pub lines : List (LogLine V)
  pub extra : Dict V

-- `{ ...base, ...fields }`
unfoldable pub spread : {V : Type 0} → Dict V → Dict V → Dict V
spread base [] = base
spread base ((k, v) ∷ fields) = spread (set base k v) fields

-- `log`
unfoldable pub log : {S V : Type 0} → Dict V → Action (Traced S V) (Unit {0})
unfolding spread
log fields s = (ok tt, record s { extra = spread s.extra fields })

module _ {S V : Type 0} (f : Fields V) (clock : S → ℕ) (tool : String) where
  abbrev pub ended_ok : ℕ → S → Dict V
  ended_ok start s =
      ("tool", f.said tool)
      ∷ ("duration_ms", f.between start (clock s))
      ∷ ("status", f.said "ok")
      ∷ []

  abbrev pub ended_error : ℕ → S → StructuredError → Dict V
  ended_error start s e =
      ("tool", f.said tool)
      ∷ ("duration_ms", f.between start (clock s))
      ∷ ("status", f.said "error")
      ∷ ("error", f.category e.error)
      ∷ ("message", f.said e.message)
      ∷ []

  abbrev pub ended_crash : ℕ → S → JsError → Dict V
  ended_crash start s e =
      ("tool", f.said tool)
      ∷ ("duration_ms", f.between start (clock s))
      ∷ ("status", f.said "crash")
      ∷ ("error", f.said e.name)
      ∷ ("message", f.said e.message)
      ∷ []

  -- `logger.info("tool_call", { ...base, ...extra })`, and `logger.error`.
  abbrev pub write_line : Level → Dict V → Traced S V → Traced S V
  write_line level base s = record s {
    lines = record { level = level; event = "tool_call"; fields = spread base s.extra } ∷ s.lines;
  }

  -- The end of the body.
  abbrev pub settle_tool : {R : Type 0} → ℕ → Outcome R → Action (Traced S V) (Answer R)
  settle_tool start (ok r) s = (ok (result r), write_line info (ended_ok start s.state) s)
  settle_tool start (thrown (ccu e)) s =
      (ok (mcp_error e), write_line info (ended_error start s.state e) s)
  settle_tool start (thrown (other e)) s =
      (thrown (other e), write_line error (ended_crash start s.state e) s)

  abbrev pub begin : Traced S V → Traced S V
  begin s = record s { extra = [] }

  -- `runTool`
  unfoldable pub run_tool : {R : Type 0} → Action (Traced S V) R → Action (Traced S V) (Answer R)
  run_tool body s = let (o, s') = body (begin s) in settle_tool (clock s.state) o s'
