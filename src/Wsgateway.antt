-- ===== src/Wsgateway.antt =====
-- backend/wsgateway/signal: the gateway of the clients' WebSocket connections.
pub mod Guard
pub mod Clients
pub mod Server
mod Tests
