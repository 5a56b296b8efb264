-- ===== src/Ring.antt =====
-- `lws_ring` of libwebsockets, with the one tail that the source uses. The ring is not under this
-- repository: it is a parameter, and the laws below are its documented behaviour, a bounded queue.
pub mod Queue
use libdiscord.Prelude.{ℕ, ◌+◌, ◌≤◌, ◌≡◌, ◌≢◌, Option, none, some, List, [], ◌∷◌, ◌++◌, length}

-- Operations on a ring `R` of elements `P`.
pub record LwsRing (R P : Type 0) : Type 0 where
  -- `none` is NULL
  pub create : ℕ → Option R
  pub count_waiting : R → ℕ
  pub count_free : R → ℕ
  -- insert one element: how many were inserted, and the ring
  pub insert : R → P → ℕ × R
  -- consume one element: `none` if none was consumed
  pub consume : R → Option (P × R)

pub record RingLaws {R P : Type 0} (ring : LwsRing R P) : Type 0 where
  -- the elements that wait, oldest first
  pub contents : R → List P
  pub contents-create : (n : ℕ) (r : R) → ring.create n ≡ some r → contents r ≡ []
  pub count_waiting-length : (r : R) → ring.count_waiting r ≡ length (contents r)
  pub insert_free :
      (r : R) (p : P)
      → ring.count_free r ≢ 0
      → ((ring.insert r p).0 ≡ 1) × (contents (ring.insert r p).1 ≡ contents r ++ (p ∷ []))
  pub insert_full : (r : R) (p : P) → ring.count_free r ≡ 0 → ring.insert r p ≡ (0, r)
  pub consume_empty : (r : R) → contents r ≡ [] → ring.consume r ≡ none
  pub consume_first :
      (r : R) (p : P) (ps : List P)
      → contents r ≡ p ∷ ps
      → (r' : R) × (ring.consume r ≡ some (p, r')) × (contents r' ≡ ps)
