-- ===== src/Tools.antt =====
-- src/tools: what the tools share, and the tools that write.
pub mod Values
pub mod Target
pub mod Steps
mod Targets
pub mod Control
mod Interface
mod Example
mod Tests
