-- ===== src/Rest.antt =====
-- The REST client, lib/REST.c and lib/REST.h.
pub mod Curl
pub mod Headers
pub mod Response
pub mod Request
pub mod Send
pub mod Callbacks
