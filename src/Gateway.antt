-- ===== src/Gateway.antt =====
-- The gateway code of lib/libdiscord.c: dispatch of events, the payload parser, heartbeats, the
-- websocket callback and the service loop.
pub mod Dispatch
pub mod Parser
pub mod Heartbeat
pub mod Receive
pub mod Callback
pub mod Service
pub mod Order
pub mod Interface
pub mod Sessions
