-- ===== src/Tools/Control/Tests.antt =====
-- src/tools/control.ts at a key whose one parameter is not known to be safe to send twice.
use ccu_mcp.Prelude.{ℕ, ◌+◌, ◌≤◌, true, ◌≡◌, refl, none, some, [], ◌∷◌, codes, if◌then◌else◌}
use ccu_mcp.Prelude.Dict.{get, set}
use ccu_mcp.Action.{ok, thrown}
use ccu_mcp.Middleware.Resolver.{
  has_colon, before_colon, device_address, channel_index, update_device_list, fill_map,
  resolve_type, resolve_raw_param_type, after_colon, rpc_type,
}
use ccu_mcp.Middleware.Retry.{with_retry, attempts, non_idempotent, is_retriable}
use ccu_mcp.Ccu.Targets.{assert_writable, make_target, refused_readonly}
use ccu_mcp.Tools.Values.{quoted, truth, infer_type, text}
use ccu_mcp.Tools.Target.{
  request, acquire, sleep, retried, gate, expect_array, refresh, resolve_interface,
}
use ccu_mcp.Tools.Steps.{count}
use ccu_mcp.Tools.Control.SetValue.{
  SetValueArgs, SetValueResult, safe_to_retry, raw_type, set_value,
}
use ccu_mcp.Tools.Control.PutParamset.{PutParamsetArgs, put_paramset}
use ccu_mcp.Tools.Control.SetVariable.{set_script}
use ccu_mcp.Tools.Control.AssignChannel.{adding, room, AssignArgs, assign_channel}
use ccu_mcp.Tools.Control.Refused.{deletes_variable, run_control, run_control-refused}
use ccu_mcp.Tools.Control.Once.{set_value-count}
use ccu_mcp.Tools.Control.Scripts.{read_set_script, read_set_script-set_script}
use ccu_mcp.Tools.Control.Assigned.{group}
use ccu_mcp.Tools.Example.{js, services, slow_services, slow, fresh, naming, dev, frozen}

abbrev press : SetValueArgs ℕ
press = record {
  address = "A1:1";
  value_key = "PRESS_SHORT";
  value = truth true;
  interface_name = none;
  value_type = none;
  confirm = none;
}

-- A press whose answer is lost is not sent again, though it fails; one that is answered is reported.
presses :
    ((set_value js slow_services naming dev press fresh).0 ≡ thrown slow)
    × (count "Interface.setValue" (set_value js slow_services naming dev press fresh).1.sent ≡ 1)
    × ((set_value js services naming dev press fresh).0
        ≡ ok (record {
          previous_value = text "false";
          new_value = truth true;
          used_interface = "HmIP-RF";
          used_type = "bool";
        }))
unfolding set_value count gate assert_writable make_target infer_type resolve_interface
    device_address has_colon before_colon refresh retried with_retry attempts non_idempotent
    expect_array request acquire sleep update_device_list fill_map get set resolve_type
    resolve_raw_param_type channel_index after_colon rpc_type is_retriable
presses = (refl, refl, refl)

set_value-count_example :
    count "Interface.setValue" (set_value js slow_services naming dev press fresh).1.sent
    ≤ count "Interface.setValue" fresh.sent
      + (if safe_to_retry (
            raw_type js slow_services naming dev press
              (set_value js slow_services naming dev press fresh).1)
          then 2
          else 1)
set_value-count_example = set_value-count js slow_services naming dev press fresh

abbrev pressed : SetValueResult ℕ
pressed = record {
  previous_value = text "false";
  new_value = truth true;
  used_interface = "HmIP-RF";
  used_type = "bool";
}

abbrev profile : PutParamsetArgs ℕ
profile = record {
  address = "A1:1";
  paramset_key = "MASTER";
  values = ("LEVEL", quoted "5") ∷ ("ACTIVE", truth true) ∷ [];
  interface_name = some "HmIP-RF";
  confirm = none;
}

-- Configuration may be sent twice, and here it is.
puts :
    (count "Interface.putParamset" (put_paramset js slow_services naming dev profile fresh).1.sent
      ≡ 2)
    × ((put_paramset js services naming dev profile fresh).0
        ≡ ok (("LEVEL", quoted "5") ∷ ("ACTIVE", truth true) ∷ []))
unfolding put_paramset count gate assert_writable make_target retried with_retry attempts
    non_idempotent request acquire sleep is_retriable
puts = (refl, refl)

run_control-refused_example :
    run_control js services naming frozen (λ l. "") (deletes_variable "Night" (some true)) fresh
    ≡ (thrown (refused_readonly frozen), fresh)
unfolding assert_writable make_target
run_control-refused_example =
    run_control-refused js services naming frozen (λ l. "") (deletes_variable "Night" (some true))
      fresh (refused_readonly frozen) refl

read_set_script-set_script_example :
    read_set_script (set_script (codes "Name\"") (codes "\"); x(\""))
    ≡ some (
      codes "Name\"",
      codes "\"); x(\"",
      codes "); WriteLine(\"OK\"); } else { WriteLine(\"NOT_FOUND\"); }",
    )
read_set_script-set_script_example = read_set_script-set_script (codes "Name\"") (codes "\"); x(\"")

abbrev assigning : AssignArgs
assigning = record { channel = "A1:1"; to_room = some "Hall"; to_function = none; confirm = none }

assigned :
    (assign_channel services naming dev adding assigning fresh).0 ≡ ok (group room "Hall" ∷ [])
unfolding assign_channel gate assert_writable make_target retried with_retry attempts non_idempotent
    expect_array request acquire sleep update_device_list
assigned = refl
