-- ===== src/Gateway/Order/Refine/Events.antt =====
-- The websocket callback as steps of the queue.
use libdiscord.Prelude.{
  ℕ, ◌+◌, ◌*◌, ◌≡◌, inl, inr, refl, ◌∙◌, ℤ, ◌||◌, Option, none, some, List, [], ◌∷◌, Bytes, ◌==◌,
  length, get_elem?, leb, Exec, fault, done, Ensures, Ensures->>=, Ensures->>=-any, Ensures-deref,
  Ensures-if, Bool-cases, ◌>>=◌, within,
}
use libdiscord.Ring.{RingLaws}
use libdiscord.Context.{
  Context, GatewayPayload, Platform, CallbackReason, null, close_message, ws_gateway_init_close,
  ws_connection_error, ws_established,
}
use libdiscord.Gateway.Dispatch.{call_user}
use libdiscord.Gateway.Callback.{
  Event, Host, lws_callback, context_callback, peer_close, end_session, invalidate_first,
  copy_message, transmit, send_first, writeable, client_writeable, with_sent,
  client_connection_error, client_established, client_receive, peer_initiated_close, wsi_destroy,
}
use libdiscord.Gateway.Service.{run_events}
use libdiscord.Gateway.Order.{hand, Steps, here, next, Steps-trans}
use libdiscord.Gateway.Order.Refine.{
  texts, outbox, Same, KeepsRing, Same-trans, same_ring-Grows, call_user-Same,
}
use libdiscord.Gateway.Order.Refine.Receiving.{GrowsBy, of_Same, receive-Grows}

module _ {J R : Type 0} (env : Platform J R) (keeps : KeepsRing env) where
  end_session-Same : (c : Context R) → Ensures (Same env c) (end_session env c)
  unfolding end_session
  end_session-Same c =
      Ensures-if (Same env c) (c.close_code == 1000 || c.close_code == 4006) _ _
        (Ensures-deref (Same env c) c.gi _
          (λ gis e. Ensures-deref (Same env c) (invalidate_first gis) _ (λ gis' e'. refl)))
        refl

  peer_close-Same :
      (c : Context R) (memory : Bytes) (len : ℕ)
      → Ensures (Same env c) (peer_close env c memory len)
  unfolding peer_close
  peer_close-Same c memory len =
      let P = Same env c in
      Ensures-deref P (get_elem? memory 0) _ (λ high e.
        Ensures-deref P (get_elem? memory 1) _ (λ low e'.
          Ensures->>=-any P (copy_message env memory len) _
            (λ message. closing (record c { close_code = high * 256 + low }) message refl)))
    where
      closing :
          (c1 : Context R) (message : Option Bytes)
          → c1.gateway_ring ≡ c.gateway_ring
          → Ensures (Same env c) (
              call_user env c1 ws_gateway_init_close (close_message message) c1.close_code
              >>= (λ (i, c2). end_session env c2))
      closing c1 message before =
          Ensures->>= (Same env c1) (Same env c) _ _
            (call_user-Same env keeps c1 ws_gateway_init_close (close_message message)
              c1.close_code)
            (λ (i, c2) same.
              Same-trans env keeps c c2 (end_session env c2) (same ∙ before) (end_session-Same c2))

module _ {J R : Type 0} (env : Platform J R) (laws : RingLaws env.ring)
    (keeps : KeepsRing env) where
  -- A call of the bot, after which the code sets fields of the context.
  call_then-Grows :
      (sent : List Bytes) (c : Context R) (reason : CallbackReason) (set : Context R → Context R)
      → ((c' : Context R) → (set c').gateway_ring ≡ c'.gateway_ring)
      → Ensures
          (GrowsBy env laws sent c)
          (call_user env c reason null 0 >>= λ (i, c'). done (i, set c'))
  call_then-Grows sent c reason set sets =
      Ensures->>= (Same env c) (GrowsBy env laws sent c) _ _
        (call_user-Same env keeps c reason null 0)
        (λ (i, c') same. same_ring-Grows env laws sent c (set c') (sets c' ∙ same))

  context_callback-Grows :
      (sent : List Bytes) (c : Context R) (e : Event)
      → Ensures (GrowsBy env laws sent c) (context_callback env c e)
  unfolding context_callback
  context_callback-Grows sent c client_connection_error =
      call_then-Grows sent c ws_connection_error (λ c'. record c' { lws_wsi = none }) (λ c'. refl)
  context_callback-Grows sent c (client_established now) =
      call_then-Grows sent c ws_established (λ c'. record c' { last_hb = now }) (λ c'. refl)
  context_callback-Grows sent c (client_receive bytes first final now m) =
      receive-Grows env laws keeps sent m now c bytes first final
  context_callback-Grows sent c (peer_initiated_close memory len) =
      of_Same env laws sent c _ (peer_close-Same env keeps c memory len)
  context_callback-Grows sent c wsi_destroy = here
  context_callback-Grows sent c _ = here

  -- What happened to the queue between two hosts.
  abbrev pub Went : Host R → Host R → Type 0
  Went h h' = Steps (outbox env laws h.context h.sent) (outbox env laws h'.context h'.sent)

  -- A payload that has left the ring is handed over, unless it is empty.
  transmit-Went :
      (h : Host R) (r r' : R) (p : GatewayPayload) (ps : List GatewayPayload)
      → h.context.gateway_ring ≡ some r
      → laws.contents r ≡ p ∷ ps
      → laws.contents r' ≡ ps
      → Ensures
          (λ x. Went h x.1)
          (transmit env
            (record h { context = record (h.context) { gateway_ring = some r' } })
            p.payload)
  unfolding transmit
  transmit-Went h r r' p ps ring first rest =
      Ensures->>=-any (λ (x : ℤ × Host R). Went h x.1)
        (within (leb (env.lws_pre + length p.payload + 1) 8192)) _
        (λ u. elim (Bool-cases (length p.payload == 0)) [
          | inl e ↦ rw (ring, first, e, rest) here
          | inr e ↦ rw (ring, first, e, rest) (next here (hand p.payload (texts ps) h.sent))
        ])

  send_first-Went :
      (h : Host R) (r : R)
      → h.context.gateway_ring ≡ some r
      → Ensures (λ x. Went h x.1) (send_first env h (env.ring.consume r))
  unfolding send_first
  send_first-Went h r ring = from (laws.contents r) refl
    where
      from :
          (ps : List GatewayPayload)
          → laws.contents r ≡ ps
          → Ensures (λ x. Went h x.1) (send_first env h (env.ring.consume r))
      from [] e = rw (laws.consume_empty r e) here
      from (p ∷ ps) e =
          let (r', taken, rest) = laws.consume_first r p ps e in
          rw taken (transmit-Went h r r' p ps ring e rest)

  writeable-Went : (h : Host R) → Ensures (λ x. Went h x.1) (writeable env h)
  unfolding writeable
  writeable-Went h =
      Ensures-deref (λ x. Went h x.1) h.context.gateway_ring _
        (λ r ring.
          Ensures-if (λ x. Went h x.1) (env.ring.count_waiting r == 0) _ _ here
            (send_first-Went h r ring))

  with_sent-Went :
      (h : Host R) (e : Event)
      → Ensures (λ x. Went h x.1) (with_sent env h.sent (context_callback env h.context e))
  with_sent-Went h e =
      Ensures->>= (GrowsBy env laws h.sent h.context) (λ x. Went h x.1)
        (context_callback env h.context e) _ (context_callback-Grows h.sent h.context e)
        (λ (i, c) grows. grows)

  callback-Went : (h : Host R) (e : Event) → Ensures (λ x. Went h x.1) (lws_callback env h e)
  unfolding lws_callback
  callback-Went h client_writeable = writeable-Went h
  callback-Went h e = with_sent-Went h e

  pub Went-trans :
      {A : Type 0} (h h' : Host R) (m : Exec A) (host : A → Host R)
      → Went h h'
      → Ensures (λ x. Went h' (host x)) m
      → Ensures (λ x. Went h (host x)) m
  Went-trans h h' fault host a k = tt
  Went-trans h h' (done x) host a k = Steps-trans a k

  pub run_events-Went : (h : Host R) (es : List Event) → Ensures (Went h) (run_events env h es)
  unfolding run_events
  run_events-Went h [] = here
  run_events-Went h (e ∷ es) =
      Ensures->>= (λ x. Went h x.1) (Went h) (lws_callback env h e) _ (callback-Went h e)
        (λ (i, h') went.
          Went-trans h h' (run_events env h' es) (λ x. x) went (run_events-Went h' es))
