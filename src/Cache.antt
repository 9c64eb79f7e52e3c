-- ===== src/Cache.antt =====
-- src/cache: the cache of device types.
pub mod TclList
pub mod DeviceTypes
