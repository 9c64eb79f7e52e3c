-- ===== src/Resources.antt =====
-- src/resources: the poller of the resources that change.
pub mod Poller
