-- ===== src/Rooms/Mirror.antt =====
-- The watcher's cache of rooms mirrors etcd: a room is cached exactly when one of its keys has a
-- value, with each part read from its key.
pub mod State
pub mod Events
pub mod Watch
pub mod Start
