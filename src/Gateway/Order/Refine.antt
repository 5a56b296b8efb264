-- ===== src/Gateway/Order/Refine.antt =====
-- The gateway code implements the queue of texts: what each part of it does to the ring and to the texts
-- that were handed to `lws_write` is a sequence of steps of the queue.
pub mod Receiving
pub mod Events
pub mod Rounds
use libdiscord.Prelude.{
  ℕ, suc, ◌≡◌, ◌≢◌, ◌⊎◌, inl, inr, refl, ap, sym, ◌∙◌, ℤ, pos, Bool, true, false, Option, none,
  some, List, [], ◌∷◌, ◌++◌, Bytes, ◌==◌, if◌then◌else◌, length, arith, Exec, fault, done, Ensures,
  Ensures->>=, Ensures-deref, Ensures-if, zero-cases, Bool-cases, ◌>>=◌, bytes_eq, deref, text,
}
use mathlib.Core.List.{append-nil}
use libdiscord.Ring.{RingLaws}
use libdiscord.Status.{is_ok, code, ok, error}
use libdiscord.Jansson.{object_get_opt, entries_opt}
use libdiscord.Context.{
  Context, GatewayPayload, Platform, Handle, CallbackReason, CallbackData, json,
}
use libdiscord.Gateway.Order.{Outbox, Step, put, hand, Steps, here, next, Steps-trans}
use libdiscord.Gateway.Dispatch.{
  Result, DispatchEntry, Handler, no_handler, dispatch_ready, call_user, find_session,
  ready_callback, run_handler, run_entry, search_dict, dispatch_named, dispatch_parser,
  dispatch_dict,
}

-- The texts of payloads; an empty one is never handed over.
abbrev pub texts : List GatewayPayload → List Bytes
texts [] = []
texts (p ∷ ps) = if length p.payload == 0 then texts ps else p.payload ∷ texts ps

cons_if :
    (b : Bool) (s : Bytes) (ss : List Bytes) (t : Bytes)
    → s ∷ (if b then ss else ss ++ (t ∷ [])) ≡ (if b then s ∷ ss else s ∷ (ss ++ (t ∷ [])))
cons_if true s ss t = refl
cons_if false s ss t = refl

texts-snoc :
    (ps : List GatewayPayload) (p : GatewayPayload)
    → texts (ps ++ (p ∷ []))
      ≡ (if length p.payload == 0 then texts ps else texts ps ++ (p.payload ∷ []))
texts-snoc [] p = refl
texts-snoc (q ∷ ps) p = elim (Bool-cases (length q.payload == 0)) [
  | inl e ↦ rw (e, texts-snoc ps p)
  | inr e ↦ rw (e, texts-snoc ps p) (cons_if (length p.payload == 0) q.payload (texts ps) p.payload)
]

module _ {J R : Type 0} (env : Platform J R) where
  -- What is asked of the bot's callback: it leaves the ring alone.
  abbrev pub KeepsRing : Type 0
  KeepsRing =
      (f : Handle) (c : Context R) (reason : CallbackReason) (d : CallbackData J) (len : ℕ)
      → Ensures (λ r. r.1.gateway_ring ≡ c.gateway_ring) (env.call f c reason d len)

  abbrev pub Same : Context R → Result env → Type 0
  Same c r = r.1.gateway_ring ≡ c.gateway_ring

  module _ (keeps : KeepsRing) where
    pub call_user-Same :
        (c : Context R) (reason : CallbackReason) (d : CallbackData J) (len : ℕ)
        → Ensures (Same c) (call_user env c reason d len)
    unfolding call_user
    call_user-Same c reason d len =
        Ensures-deref (Same c) c.user_callback (λ f. env.call f c reason d len)
          (λ f e. keeps f c reason d len)

    pub Same-trans :
        (c c' : Context R) (m : Exec (Result env))
        → c'.gateway_ring ≡ c.gateway_ring
        → Ensures (Same c') m
        → Ensures (Same c) m
    Same-trans c c' fault same h = tt
    Same-trans c c' (done r) same h = h ∙ same

    find_session-Same :
        (c : Context R) (es : List (Bytes × J)) → Ensures (Same c) (find_session env c es)
    unfolding find_session
    find_session-Same c [] = refl
    find_session-Same c ((key, value) ∷ es) =
        Ensures-if (Same c) (bytes_eq key (text "session_id")) _ (find_session env c es)
          (Ensures-deref (Same c) (env.jansson.string_value value) _ (λ s e. refl))
          (find_session-Same c es)

    ready_callback-Same : (c : Context R) (d : Option J) → Ensures (Same c) (ready_callback env c d)
    unfolding ready_callback
    ready_callback-Same c d = find_session-Same c (entries_opt env.jansson d)

    run_handler-Same :
        (h : Handler) (c : Context R) (d : Option J) → Ensures (Same c) (run_handler env h c d)
    unfolding run_handler
    run_handler-Same no_handler c d = refl
    run_handler-Same dispatch_ready c d = ready_callback-Same c d

    run_entry-Same :
        (e : DispatchEntry) (c : Context R) (d : Option J) → Ensures (Same c) (run_entry env e c d)
    unfolding run_entry
    run_entry-Same e c d =
        Ensures->>= (Same c) (Same c) (run_handler env e.dispatch_callback c d) _
          (run_handler-Same e.dispatch_callback c d)
          (λ (ret, c') same.
            Ensures-if (Same c) (is_ok ret) _ _
              (Same-trans c c' (call_user env c' e.cbk_reason (json d) 0) same
                (call_user-Same c' e.cbk_reason (json d) 0))
              same)

    search_dict-Same :
        (es : List DispatchEntry) (name : Bytes) (c : Context R) (d : Option J)
        → Ensures (Same c) (search_dict env es name c d)
    unfolding search_dict
    search_dict-Same [] name c d = refl
    search_dict-Same (e ∷ es) name c d =
        Ensures-if (Same c) (bytes_eq name e.name) (run_entry env e c d)
          (search_dict env es name c d) (run_entry-Same e c d) (search_dict-Same es name c d)

    pub dispatch_parser-Same :
        (c : Context R) (t d : Option J) → Ensures (Same c) (dispatch_parser env c t d)
    unfolding dispatch_parser dispatch_named
    dispatch_parser-Same c t d =
        Ensures-deref (Same c) t (λ v. dispatch_named env (env.jansson.string_value v) c d)
          (λ v e. named (env.jansson.string_value v))
      where
        named : (o : Option Bytes) → Ensures (Same c) (dispatch_named env o c d)
        named none = refl
        named (some name) = search_dict-Same dispatch_dict name c d

module _ {J R : Type 0} (env : Platform J R) (laws : RingLaws env.ring) where
  -- The texts that wait in the ring of a context.
  abbrev pub pending : Option R → List Bytes
  pending none = []
  pending (some r) = texts (laws.contents r)

  abbrev pub outbox : Context R → List Bytes → Outbox
  outbox c sent = record { waiting = pending c.gateway_ring; handed = sent }

  -- What happened to the queue between two contexts, while nothing was handed over.
  abbrev pub Grows : List Bytes → Context R → Context R → Type 0
  Grows sent c c' = Steps (outbox c sent) (outbox c' sent)

  pub same_ring-Grows :
      (sent : List Bytes) (c c' : Context R) → c'.gateway_ring ≡ c.gateway_ring → Grows sent c c'
  same_ring-Grows sent c c' same = rw same here

  by_empty :
      {handed : List Bytes} (empty : Bool) (ss : List Bytes) (t : Bytes)
      → Steps
          (record { waiting = ss; handed = handed })
          (record { waiting = if empty then ss else ss ++ (t ∷ []); handed = handed })
  by_empty true ss t = here
  by_empty {handed} false ss t = next here (put (record { waiting = ss; handed = handed }) t)

  pub insert-Grows :
      (sent : List Bytes) (c : Context R) (r : R) (p : GatewayPayload)
      → c.gateway_ring ≡ some r
      → Grows sent c (record c { gateway_ring = some (env.ring.insert r p).1 })
  insert-Grows sent c r p ring = elim (zero-cases (env.ring.count_free r)) [
    | inl full ↦
        same_ring-Grows sent c (record c { gateway_ring = some (env.ring.insert r p).1 })
          (ap (λ x. some x.1) (laws.insert_full r p full) ∙ sym ring)
    | inr free ↦ grown (laws.insert_free r p free).1
  ]
    where
      grown :
          laws.contents (env.ring.insert r p).1 ≡ laws.contents r ++ (p ∷ [])
          → Grows sent c (record c { gateway_ring = some (env.ring.insert r p).1 })
      grown e =
          rw (ring, e, texts-snoc (laws.contents r) p)
            (by_empty (length p.payload == 0) (texts (laws.contents r)) p.payload)
