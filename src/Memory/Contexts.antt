-- ===== src/Memory/Contexts.antt =====
-- `ld_cleanup_context`, `ld_set_identify` and `ld_cleanup_identify` (lib/libdiscord.c) by the blocks
-- that they allocate and free.
use libdiscord.Prelude.{
  ℕ, ◌≡◌, ◌⊎◌, inl, inr, refl, ap, sym, Bool-cases, Option-cases, ==_iff, ◌∙◌, true, false, Option,
  none, some, List, [], ◌∷◌, ◌==◌, if◌then◌else◌, arith, Exec, fault, done, ◌>>=◌, ℤ, ==_refl,
}
use libdiscord.Status.{code, ok, alloc_err}
use libdiscord.Memory.{Pointer, Heap, add, remove, free}
use libdiscord.Memory.Without.{
  blocks, has, without, without_lem, without-freed, Ready, freed, free-Ready, Ready-freed,
}

-- `struct ld_context` by the pointers that its clean-up reads.
pub record ContextBlocks : Type 0 where
  pub gateway_session_id : Pointer
  pub current_user : Pointer
  pub init_presence : Pointer
  pub curl_multi_handle : Pointer
  pub lws_context : Pointer
  pub gateway_ring : Pointer

-- The calls of libcurl and libwebsockets, which free what is theirs.
pub data LibraryCall : Type 0 where
  curl_multi_cleanup : Pointer → LibraryCall
  curl_global_cleanup : LibraryCall
  lws_context_destroy : Pointer → LibraryCall
  lws_ring_destroy : Pointer → LibraryCall

-- `ld_cleanup_context`: the heap, and the libraries' functions that are called, in order. The fields
-- keep their values.
unfoldable pub cleanup_context : Option ContextBlocks → Heap → Exec (Heap × List LibraryCall)
unfolding free
cleanup_context none h = done (h, [])
cleanup_context (some c) h = do
  h1 ← free c.gateway_session_id h
  h2 ← free c.current_user h1
  h3 ← free c.init_presence h2
  done (
    h3,
    curl_multi_cleanup c.curl_multi_handle
        ∷ curl_global_cleanup
        ∷ lws_context_destroy c.lws_context
        ∷ lws_ring_destroy c.gateway_ring
        ∷ [],
  )

-- `identify->properties = malloc(...)` in `ld_set_identify`, with the address that it gives.
unfoldable pub set_identify_blocks : Pointer → Heap → ℤ × Pointer × Heap
set_identify_blocks none h = (code alloc_err, none, h)
set_identify_blocks (some a) h = (code ok, some a, add (some a) h)

-- `ld_cleanup_identify`, for the pointer `identify->properties`.
unfoldable pub cleanup_identify : Pointer → Heap → Exec (ℤ × Heap)
unfolding free
cleanup_identify properties h = do h' ← free properties h; done (code ok, h')

-- What a context's clean-up frees, in that order.
abbrev pub cleaned : ContextBlocks → List Pointer
cleaned c = c.gateway_session_id ∷ c.current_user ∷ c.init_presence ∷ []

-- Where the session id, the current user and the presence are NULL or blocks that are there and differ:
-- ld_cleanup_context frees these and nothing else, so that every other block that the context points to
-- and the structure itself stay, then calls the four functions of the libraries on its handles, in this order.
pub cleanup_context-without :
    (c : ContextBlocks) (h : Heap)
    → Ready (cleaned c) h
    → (h' : Heap) × (cleanup_context (some c) h
        ≡ done (
          h',
          curl_multi_cleanup c.curl_multi_handle
              ∷ curl_global_cleanup
              ∷ lws_context_destroy c.lws_context
              ∷ lws_ring_destroy c.gateway_ring
              ∷ [],
        ))
      × ((b : ℕ) → h' b ≡ (if has b (blocks (cleaned c)) then false else h b))
unfolding cleanup_context
cleanup_context-without c h ready =
    let r1 = Ready-freed c.gateway_session_id (c.current_user ∷ c.init_presence ∷ []) h ready in
    let h1 = freed c.gateway_session_id h in
    let r2 = Ready-freed c.current_user (c.init_presence ∷ []) h1 r1 in
    let h2 = freed c.current_user h1 in
    let last : freed c.init_presence h2 ≡ without (blocks (cleaned c)) h =
      without-freed c.init_presence [] h2
      ∙ without-freed c.current_user (c.init_presence ∷ []) h1
      ∙ without-freed c.gateway_session_id (c.current_user ∷ c.init_presence ∷ []) h in
    (
      without (blocks (cleaned c)) h,
      rw (
        free-Ready c.gateway_session_id (c.current_user ∷ c.init_presence ∷ []) h ready,
        free-Ready c.current_user (c.init_presence ∷ []) h1 r1,
        free-Ready c.init_presence [] h2 r2,
        last,
      ),
      without_lem (blocks (cleaned c)) h,
    )

-- A block that is freed again as it was added.
remove-add : (a : ℕ) (h : Heap) → h a ≡ false → (b : ℕ) → remove a (add (some a) h) b ≡ h b
remove-add a h fresh b = elim (Bool-cases (a == b)) [
  | inl e ↦ rw e (sym fresh ∙ ap h ((==_iff a b).0 e))
  | inr e ↦ rw e refl
]

-- The properties of IDENTIFY are freed again: whatever malloc gives, at an address that is not taken,
-- ld_cleanup_identify after ld_set_identify leaves the heap as it was.
pub set_identify-cleanup_identify :
    (p : Pointer) (h : Heap)
    → (p ≡ none) ⊎ ((a : ℕ) × (p ≡ some a) × (h a ≡ false))
    → (h' : Heap) × (cleanup_identify (set_identify_blocks p h).1 (set_identify_blocks p h).2
        ≡ done (code ok, h'))
      × ((b : ℕ) → h' b ≡ h b)
unfolding set_identify_blocks cleanup_identify
set_identify-cleanup_identify p h (inl e) = rw e (h, refl, λ b. refl)
set_identify-cleanup_identify p h (inr (a, e, fresh)) =
    rw e (remove a (add (some a) h), rw (==_refl a), remove-add a h fresh)

-- A clean-up of pointers that are dangling, of which one is not NULL.
cleanup_dead :
    (c : ContextBlocks) (g : Heap) (a : ℕ)
    → has a (blocks (cleaned c)) ≡ true
    → ((b : ℕ) → has b (blocks (cleaned c)) ≡ true → g b ≡ false)
    → cleanup_context (some c) g ≡ fault
unfolding cleanup_context
cleanup_dead c g a some_block dead = elim (Option-cases c.gateway_session_id) [
  | inr (b, e) ↦ rw (e, dead b (rw (e, ==_refl b)))
  | inl e ↦ elim (Option-cases c.current_user) [
    | inr (b, e') ↦ rw (e, e', dead b (rw (e, e', ==_refl b)))
    | inl e' ↦ elim (Option-cases c.init_presence) [
      | inr (b, e'') ↦ rw (e, e', e'', dead b (rw (e, e', e'', ==_refl b)))
      | inl e'' ↦ ground arith
    ]
  ]
]

-- A context whose session id, current user or presence is not NULL can be cleaned up once only: the
-- pointers keep their values, so that a second ld_cleanup_context frees a block again.
pub cleanup_twice_faults :
    (c : ContextBlocks) (h : Heap) (a : ℕ)
    → Ready (cleaned c) h
    → has a (blocks (cleaned c)) ≡ true
    → (cleanup_context (some c) h >>= λ (h', calls). cleanup_context (some c) h') ≡ fault
cleanup_twice_faults c h a ready some_block =
    let (h', once, after) = cleanup_context-without c h ready in
    rw once (cleanup_dead c h' a some_block (λ b freed. rw (after b, freed)))
