-- ===== src/Tools/Control/Refused.antt =====
-- src/tools/control.ts: the tools that `registerControlTools` registers, and what a refused gate leaves.
use ccu_mcp.Prelude.{String, Bool, true, false, ◌≡◌, refl, Option, List, arith}
use ccu_mcp.Errors.{Failure}
use ccu_mcp.Action.{thrown, pure, ◌>>◌}
use ccu_mcp.Ccu.Targets.{Naming, Target, TargetSelection, assert_writable}
use ccu_mcp.Tools.Values.{Js, Value}
use ccu_mcp.Tools.Target.{ToolState, Services, Tool, gate}
use ccu_mcp.Tools.Control.SetValue.{SetValueArgs, set_value}
use ccu_mcp.Tools.Control.PutParamset.{PutParamsetArgs, put_paramset}
use ccu_mcp.Tools.Control.Coerce.{Text}
use ccu_mcp.Tools.Control.SetVariable.{set_system_variable}
use ccu_mcp.Tools.Control.CreateVariable.{create_system_variable}
use ccu_mcp.Tools.Control.CreateScript.{CreateArgs}
use ccu_mcp.Tools.Control.DeleteVariable.{delete_system_variable}
use ccu_mcp.Tools.Control.Program.{execute_program}
use ccu_mcp.Tools.Control.AssignChannel.{Mode, AssignArgs, assign_channel}

-- A call of one of the tools, with its arguments.
pub data ControlCall (N : Type 0) : Type 0 where
  sets_value : SetValueArgs N → ControlCall N
  puts_paramset : PutParamsetArgs N → ControlCall N
  sets_variable : (name : String) (value : Value N) (confirm : Option Bool) → ControlCall N
  creates_variable : CreateArgs N → ControlCall N
  deletes_variable : (name : String) (confirm : Option Bool) → ControlCall N
  executes_program : (id : String) (confirm : Option Bool) → ControlCall N
  assigns_channel : Mode → AssignArgs → ControlCall N

abbrev pub confirmation : {N : Type 0} → ControlCall N → Option Bool
confirmation (sets_value args) = args.confirm
confirmation (puts_paramset args) = args.confirm
confirmation (sets_variable name value confirm) = confirm
confirmation (creates_variable args) = args.confirm
confirmation (deletes_variable name confirm) = confirm
confirmation (executes_program id confirm) = confirm
confirmation (assigns_channel mode args) = args.confirm

-- Whether the tool asks for a confirmation on every call.
abbrev pub always_confirms : {N : Type 0} → ControlCall N → Bool
always_confirms (deletes_variable name confirm) = true
always_confirms (sets_value args) = false
always_confirms (puts_paramset args) = false
always_confirms (sets_variable name value confirm) = false
always_confirms (creates_variable args) = false
always_confirms (executes_program id confirm) = false
always_confirms (assigns_channel mode args) = false

module _ {W N : Type 0} (js : Js N) (v : Services W N) (n : Naming) (t : Target)
    (join : List Text → String) where
  -- The handler of the call, without its result.
  unfoldable pub run_control : ControlCall N → Tool v (Unit {0})
  run_control (sets_value args) = set_value js v n t args >> pure tt
  run_control (puts_paramset args) = put_paramset js v n t args >> pure tt
  run_control (sets_variable name value confirm) =
      set_system_variable js v n t join name value confirm >> pure tt
  run_control (creates_variable args) = create_system_variable js v n t args
  run_control (deletes_variable name confirm) = delete_system_variable v n t name confirm
  run_control (executes_program id confirm) = execute_program v n t id confirm >> pure tt
  run_control (assigns_channel mode args) = assign_channel v n t mode args >> pure tt

  assert-stays :
      (confirm : Option Bool) (always : Bool) (s : TargetSelection) (e : Failure)
      → (assert_writable n t confirm always s).0 ≡ thrown e
      → assert_writable n t confirm always s ≡ (thrown e, s)
  unfolding assert_writable
  assert-stays confirm always s e h = ground arith

  gate-stays :
      (confirm : Option Bool) (always : Bool) (s : ToolState W N) (e : Failure)
      → (assert_writable n t confirm always s.selection).0 ≡ thrown e
      → gate v n t confirm always s ≡ (thrown e, s)
  unfolding gate
  gate-stays confirm always s e h = rw (assert-stays confirm always s.selection e h) refl

  -- When the gate refuses a call with its confirmation, the tool throws what the gate throws; it has
  -- sent no request, taken no token and changed nothing.
  pub run_control-refused :
      (c : ControlCall N) (s : ToolState W N) (e : Failure)
      → (assert_writable n t (confirmation c) (always_confirms c) s.selection).0 ≡ thrown e
      → run_control c s ≡ (thrown e, s)
  unfolding run_control set_value put_paramset set_system_variable create_system_variable
      delete_system_variable execute_program assign_channel
  run_control-refused (sets_value args) s e h = rw (gate-stays args.confirm false s e h) refl
  run_control-refused (puts_paramset args) s e h = rw (gate-stays args.confirm false s e h) refl
  run_control-refused (sets_variable name value confirm) s e h =
      rw (gate-stays confirm false s e h) refl
  run_control-refused (creates_variable args) s e h = rw (gate-stays args.confirm false s e h) refl
  run_control-refused (deletes_variable name confirm) s e h =
      rw (gate-stays confirm true s e h) refl
  run_control-refused (executes_program id confirm) s e h = rw (gate-stays confirm false s e h) refl
  run_control-refused (assigns_channel mode args) s e h =
      rw (gate-stays args.confirm false s e h) refl
