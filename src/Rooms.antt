-- ===== src/Rooms.antt =====
-- backend/rooms/service: which modules serve which rooms, and which rooms are removed.
pub mod Usage
pub mod Stats
pub mod Mirror
pub mod Pick
pub mod Housekeeping
pub mod Store
pub mod Service
pub mod Router
mod Tests
