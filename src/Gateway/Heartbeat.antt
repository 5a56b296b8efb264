-- ===== src/Gateway/Heartbeat.antt =====
-- Heartbeats: `ld_gateway_queue_heartbeat` and the timer at the head of `ld_service`
-- (lib/libdiscord.c).
pub mod Timer
use libdiscord.Prelude.{
  ℕ, ◌+◌, ◌-◌, ◌/◌, ◌%◌, ◌^◌, ℤ, pos, negsuc, ◌+ℤ◌, ltb_ℤ, Bool, true, false, not, ◌&&◌, Option,
  none, some, ltb, ◌==◌, if◌then◌else◌, length, Bytes, Exec, done, deref, ◌>>=◌,
}
use libdiscord.Status.{
  code, ok, websocket_cantfit_payload_err, websocket_cantfit_heartbeat_err,
  websocket_heartbeat_acknowledegement_missed, is_ok,
}
use libdiscord.Jansson.{Jansson}
use libdiscord.Payload.{create_payload, opcode_value, heartbeat}
use libdiscord.Context.{Context, GatewayPayload, Platform}
use libdiscord.Gateway.Dispatch.{Result}

module _ {J R : Type 0} (env : Platform J R) where
  -- `json_dumps` of a pointer that may be NULL, for which it returns NULL.
  unfoldable pub dumps_opt : Option J → Option Bytes
  dumps_opt none = none
  dumps_opt (some v) = env.jansson.dumps v

  -- The heartbeat object: the opcode and the last sequence number.
  unfoldable pub heartbeat_payload : ℤ → Option J
  heartbeat_payload seq =
      create_payload env.jansson (env.jansson.integer (pos (opcode_value heartbeat)))
        (some (env.jansson.integer seq)) none none

  -- `ld_gateway_queue_heartbeat`; `strlen` and `strdup` of NULL are faults.
  unfoldable pub queue_heartbeat : Context R → Exec (Result env)
  unfolding dumps_opt
  queue_heartbeat c = do
    let hb = heartbeat_payload c.last_seq
    ring ← deref c.gateway_ring
    let insert = do
      s ← deref (dumps_opt hb)
      let (ret, ring') = env.ring.insert ring (record { payload = s; len = length s })
      let c' = record c { gateway_ring = some ring' }
      if ret == 1 then done (code ok, c') else done (code websocket_cantfit_heartbeat_err, c')
    if env.ring.count_free ring == 0 then done (code websocket_cantfit_payload_err, c) else insert

  -- The seconds since the last heartbeat, as unsigned longs, against the interval in milliseconds.
  unfoldable pub is_due : Context R → ℕ → Bool
  is_due c now =
      ltb (c.heartbeat_interval / 1000) ((now + 2 ^ 64 - c.last_hb) % 2 ^ 64)
      && not (c.heartbeat_interval == 0)

  -- The timer of `ld_service`: a status with which it returns at once, or `none` to go on. `now` and
  -- `later` are the two readings of the clock. `hb_count` is taken not to overflow.
  unfoldable pub heartbeat_timer : Context R → ℕ → ℕ → Exec (Option ℤ × Context R)
  unfolding is_due
  heartbeat_timer c now later =
      let c1 = record c { hb_count = c.hb_count +ℤ pos 1 } in
      let queued = do
        (ret, c2) ← queue_heartbeat c1
        if is_ok ret
            then done (none, record c2 { last_hb = later })
            else done (
              some (code websocket_cantfit_heartbeat_err),
              record c2 { hb_count = c2.hb_count +ℤ negsuc 0 },
            )
      in let beat =
          (if ltb_ℤ (pos 1) c1.hb_count
            then done (some (code websocket_heartbeat_acknowledegement_missed), c1)
            else queued) in
        if is_due c now then beat else done (none, c)
