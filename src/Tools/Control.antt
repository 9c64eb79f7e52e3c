-- ===== src/Tools/Control.antt =====
-- src/tools/control.ts: the tools that write.
pub mod SetValue
pub mod PutParamset
pub mod Program
pub mod Coerce
pub mod SetVariable
pub mod CreateScript
pub mod CreateVariable
pub mod DeleteVariable
pub mod AssignChannel
mod Once
mod Written
mod Executed
mod Labels
mod Scripts
mod Assigned
mod Tests
mod Refused
