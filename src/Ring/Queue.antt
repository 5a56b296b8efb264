-- ===== src/Ring/Queue.antt =====
-- A bounded queue that meets the laws of a ring, for tests and witnesses.
use libdiscord.Prelude.{
  ℕ, ◌-◌, ◌≡◌, ◌≢◌, refl, Option, none, some, List, [], ◌∷◌, ◌++◌, length, arith, ltb,
  if◌then◌else◌,
}
use libdiscord.Ring.{LwsRing, RingLaws}

pub record Queue (P : Type 0) : Type 0 where
  pub size : ℕ
  pub items : List P

module _ {P : Type 0} where
  abbrev take_first : ℕ → List P → Option (P × Queue P)
  take_first n [] = none
  take_first n (p ∷ ps) = some (p, record { size = n; items = ps })

  abbrev pub queue_ring : LwsRing (Queue P) P
  queue_ring = record {
    create = λ n. some (record { size = n; items = [] });
    count_waiting = λ q. length q.items;
    count_free = λ q. q.size - length q.items;
    insert = λ q p.
        if ltb (length q.items) q.size
        then (1, record q { items = q.items ++ (p ∷ []) })
        else (0, q);
    consume = λ q. take_first q.size q.items;
  }

  pub queue_create : (n : ℕ) (r : Queue P) → queue_ring.create n ≡ some r → r.items ≡ []
  queue_create n r e = cc

  pub queue_insert_free :
      (r : Queue P) (p : P)
      → queue_ring.count_free r ≢ 0
      → ((queue_ring.insert r p).0 ≡ 1) × ((queue_ring.insert r p).1.items ≡ r.items ++ (p ∷ []))
  queue_insert_free r p h = ground arith

  pub queue_insert_full :
      (r : Queue P) (p : P) → queue_ring.count_free r ≡ 0 → queue_ring.insert r p ≡ (0, r)
  queue_insert_full r p h = ground arith

  pub queue_consume_empty : (r : Queue P) → r.items ≡ [] → queue_ring.consume r ≡ none
  queue_consume_empty r h = rw (h, take_first)

  pub queue_consume_first :
      (r : Queue P) (p : P) (ps : List P)
      → r.items ≡ p ∷ ps
      → (r' : Queue P) × (queue_ring.consume r ≡ some (p, r')) × (r'.items ≡ ps)
  queue_consume_first r p ps h = (record r { items = ps }, rw (h, take_first), refl)

  unfoldable pub queue_laws : RingLaws queue_ring
  queue_laws = record {
    contents = λ q. q.items;
    contents-create = queue_create;
    count_waiting-length = λ r. refl;
    insert_free = queue_insert_free;
    insert_full = queue_insert_full;
    consume_empty = queue_consume_empty;
    consume_first = queue_consume_first;
  }
