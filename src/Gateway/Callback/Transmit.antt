-- ===== src/Gateway/Callback/Transmit.antt =====
-- Sending: the payloads leave in the order in which they were queued.
use mathlib.Core.List.{append-nil, append_assoc}
use libdiscord.Prelude.{
  suc, ◌+◌, ◌≤◌, ◌<◌, ◌≡◌, refl, ap, sym, ◌∙◌, pos, negsuc, ltb_ℤ, some, List, [], ◌∷◌, ◌++◌, map,
  Bytes, length, arith, done, All, if◌then◌else◌,
}
use libdiscord.Ring.{RingLaws}
use libdiscord.Context.{GatewayPayload, Platform}
use libdiscord.Gateway.Callback.{client_writeable, Host, lws_callback}
use libdiscord.Gateway.Service.{run_events}

module _ {J R : Type 0} (env : Platform J R) (laws : RingLaws env.ring) where
  -- A payload that is not empty and fits the connection's buffer.
  abbrev pub Fits : GatewayPayload → Type 0
  Fits p = (0 < length p.payload) × (env.lws_pre + length p.payload + 1 ≤ 8192)

  -- The host once a payload is gone.
  abbrev pub after_send : Host R → R → Bytes → Host R
  after_send h r s = record {
    context = record (h.context) { gateway_ring = some r };
    sent = h.sent ++ (s ∷ []);
  }

  -- A writeable event hands the oldest payload of the ring to `lws_write` and takes it out of the ring;
  -- the result is 0 if all its bytes were written, and -1 otherwise.
  pub writeable_first :
      (h : Host R) (r : R) (p : GatewayPayload) (ps : List GatewayPayload)
      → h.context.gateway_ring ≡ some r
      → laws.contents r ≡ p ∷ ps
      → Fits p
      → (r' : R) × (laws.contents r' ≡ ps)
        × (lws_callback env h client_writeable
            ≡ done (
              if ltb_ℤ (env.lws_write p.payload) (pos (length p.payload)) then negsuc 0 else pos 0,
              after_send h r' p.payload,
            ))
  unfolding lws_callback
  writeable_first h r p ps ring first fits =
      let (r', consumed, rest) = laws.consume_first r p ps first in
      let waiting : env.ring.count_waiting r ≡ suc (length ps) =
        laws.count_waiting-length r ∙ ap length first in
      (r', rest, rw (ring, waiting, consumed) (ground arith))

  -- Where every payload of the ring is not empty and fits the buffer of 8192 bytes: one writeable event for
  -- each of them empties the ring, and hands the payloads to `lws_write` in the order in which they were
  -- queued, whatever `lws_write` returns; the rest of the context stays.
  pub run_events_drain :
      (ps : List GatewayPayload) (h : Host R) (r : R)
      → h.context.gateway_ring ≡ some r
      → laws.contents r ≡ ps
      → All Fits ps
      → (r' : R) × (laws.contents r' ≡ [])
        × (run_events env h (map (λ _. client_writeable) ps)
            ≡ done (record {
              context = record (h.context) { gateway_ring = some r' };
              sent = h.sent ++ map (λ p. p.payload) ps;
            }))
  unfolding run_events
  run_events_drain [] h r ring empty fits = (
    r,
    empty,
    λ i. done (record {
      context = record (h.context) { gateway_ring = ring i };
      sent = sym (append-nil h.sent) i;
    }),
  )
  run_events_drain (p ∷ ps) h r ring first fits =
      let (r1, rest, sends) = writeable_first h r p ps ring first fits.0 in
      let (r', emptied, drains) =
        run_events_drain ps (after_send h r1 p.payload) r1 refl rest fits.1 in
      (
        r',
        emptied,
        rw sends (
            drains ∙ λ i. done (record {
              context = record (h.context) { gateway_ring = some r' };
              sent = append_assoc h.sent (p.payload ∷ []) (map (λ p. p.payload) ps) i;
            })),
      )
