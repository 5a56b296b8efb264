-- ===== src/Gateway/Heartbeat/Timer.antt =====
-- What the heartbeat timer does on each of its branches.
use libdiscord.Prelude.{
  ℕ, ◌+◌, ◌/◌, ◌^◌, ◌≤◌, ◌<◌, ◌≡◌, ◌≢◌, ◌↔◌, ℤ, pos, negsuc, ◌+ℤ◌, ◌≤ℤ◌, true, false, none, some,
  [], ◌∷◌, ◌++◌, Bytes, length, arith, done, ltb_ℤ,
}
use libdiscord.Status.{
  code, ok, websocket_cantfit_payload_err, websocket_cantfit_heartbeat_err,
  websocket_heartbeat_acknowledegement_missed,
}
use libdiscord.Ring.{RingLaws}
use libdiscord.Context.{Context, GatewayPayload, Platform}
use libdiscord.Gateway.Heartbeat.{
  dumps_opt, heartbeat_payload, queue_heartbeat, is_due, heartbeat_timer,
}

-- Taking a heartbeat back.
sub-add_one : (n : ℤ) → n +ℤ pos 1 +ℤ negsuc 0 ≡ n
unfolding ◌+ℤ◌
sub-add_one n = ground arith

one-lt-add_one : (n : ℤ) → pos 1 ≤ℤ n → ltb_ℤ (pos 1) (n +ℤ pos 1) ≡ true
unfolding ◌+ℤ◌
one-lt-add_one n h = ground arith

not-one-lt-add_one : (n : ℤ) → n ≤ℤ pos 0 → ltb_ℤ (pos 1) (n +ℤ pos 1) ≡ false
unfolding ◌+ℤ◌
not-one-lt-add_one n h = ground arith

module _ {J R : Type 0} (env : Platform J R) where
  -- The payload in the ring for a printed text.
  abbrev pub queued_text : Bytes → GatewayPayload
  queued_text s = record { payload = s; len = length s }

  module _ (laws : RingLaws env.ring) where
    -- With a ring that has room, a heartbeat that can be printed goes to the end of the ring, and
    -- nothing else changes.
    pub queue_heartbeat_room :
        (c : Context R) (r : R) (s : Bytes)
        → c.gateway_ring ≡ some r
        → env.ring.count_free r ≢ 0
        → dumps_opt env (heartbeat_payload env c.last_seq) ≡ some s
        → (r' : R) × (queue_heartbeat env c ≡ done (code ok, record c { gateway_ring = some r' }))
          × (laws.contents r' ≡ laws.contents r ++ (queued_text s ∷ []))
    unfolding queue_heartbeat
    queue_heartbeat_room c r s ring room printed =
        let (one, appended) = laws.insert_free r (queued_text s) room in
        ((env.ring.insert r (queued_text s)).1, ground (arith, one), appended)

  queue_heartbeat_full :
      (c : Context R) (r : R)
      → c.gateway_ring ≡ some r
      → env.ring.count_free r ≡ 0
      → queue_heartbeat env c ≡ done (code websocket_cantfit_payload_err, c)
  unfolding queue_heartbeat
  queue_heartbeat_full c r ring full = rw (ring, full, queue_heartbeat)

  -- While the clock has not gone back, a heartbeat is due exactly when an interval has been set and more
  -- whole seconds than it has have passed since the last one.
  pub is_due_iff :
      (c : Context R) (now : ℕ)
      → c.last_hb ≤ now
      → now < 2 ^ 64
      → (is_due env c now ≡ true)
        ↔ ((c.heartbeat_interval ≢ 0) × (c.heartbeat_interval / 1000 + c.last_hb < now))
  unfolding is_due
  is_due_iff c now past small = ground arith

  -- A heartbeat that is due while another is not acknowledged: the timer returns the status for a missed
  -- acknowledgement, counts one more heartbeat, and queues nothing.
  pub heartbeat_timer_missed :
      (c : Context R) (now later : ℕ)
      → is_due env c now ≡ true
      → pos 1 ≤ℤ c.hb_count
      → heartbeat_timer env c now later
        ≡ done (
          some (code websocket_heartbeat_acknowledegement_missed),
          record c { hb_count = c.hb_count +ℤ pos 1 },
        )
  unfolding heartbeat_timer
  heartbeat_timer_missed c now later due waiting =
      rw (due, one-lt-add_one c.hb_count waiting, heartbeat_timer)

  -- A heartbeat that is due, with the last one acknowledged, and a full ring: the timer returns the
  -- status for a heartbeat that does not fit, and the context is as it was.
  pub heartbeat_timer_full :
      (c : Context R) (now later : ℕ) (r : R)
      → is_due env c now ≡ true
      → c.hb_count ≤ℤ pos 0
      → c.gateway_ring ≡ some r
      → env.ring.count_free r ≡ 0
      → heartbeat_timer env c now later ≡ done (some (code websocket_cantfit_heartbeat_err), c)
  unfolding heartbeat_timer
  heartbeat_timer_full c now later r due acked ring full = rw (
    due,
    not-one-lt-add_one c.hb_count acked,
    queue_heartbeat_full (record c { hb_count = c.hb_count +ℤ pos 1 }) r ring full,
    sub-add_one c.hb_count,
    heartbeat_timer,
  )

  module _ (laws : RingLaws env.ring) where
    -- A heartbeat that is due, with the last one acknowledged, and room in the ring: the heartbeat goes
    -- to the end of the ring, is counted as not acknowledged, its time is the second reading of the clock,
    -- nothing else changes, and `ld_service` goes on.
    pub heartbeat_timer_sends :
        (c : Context R) (now later : ℕ) (r : R) (s : Bytes)
        → is_due env c now ≡ true
        → c.hb_count ≤ℤ pos 0
        → c.gateway_ring ≡ some r
        → env.ring.count_free r ≢ 0
        → dumps_opt env (heartbeat_payload env c.last_seq) ≡ some s
        → (r' : R) × (heartbeat_timer env c now later
            ≡ done (
              none,
              record c { hb_count = c.hb_count +ℤ pos 1; last_hb = later; gateway_ring = some r' },
            ))
          × (laws.contents r' ≡ laws.contents r ++ (queued_text s ∷ []))
    unfolding heartbeat_timer
    heartbeat_timer_sends c now later r s due acked ring room printed =
        let c1 = record c { hb_count = c.hb_count +ℤ pos 1 } in
        let (r', queued, appended) = queue_heartbeat_room laws c1 r s ring room printed in
        (r', rw (due, not-one-lt-add_one c.hb_count acked, queued, heartbeat_timer), appended)
