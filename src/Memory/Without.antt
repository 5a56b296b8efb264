-- ===== src/Memory/Without.antt =====
-- Freeing blocks that differ from one another and are there: exactly these are gone.
use libdiscord.Prelude.{
  ℕ, ◌≡◌, refl, Bool, true, false, ◌||◌, none, some, List, [], ◌∷◌, ◌++◌, All, length, ◌==◌,
  if◌then◌else◌, arith, done,
}
use libdiscord.Memory.{Pointer, Heap, remove, free, free_all, access, clean_pairs}

-- The addresses of the pointers that are not NULL.
abbrev pub blocks : List Pointer → List ℕ
blocks [] = []
blocks (none ∷ ps) = blocks ps
blocks (some a ∷ ps) = a ∷ blocks ps

abbrev pub has : ℕ → List ℕ → Bool
has a [] = false
has a (b ∷ bs) = a == b || has a bs

abbrev pub Distinct : List ℕ → Type 0
Distinct [] = Unit
Distinct (a ∷ cs) = (has a cs ≡ false) × Distinct cs

abbrev pub Live : Heap → List ℕ → Type 0
Live h = All (λ a. h a ≡ true)

-- The heap without these blocks.
abbrev pub without : List ℕ → Heap → Heap
without [] h = h
without (a ∷ cs) h = without cs (remove a h)

pub Live-remove :
    (h : Heap) (a : ℕ) (cs : List ℕ) → has a cs ≡ false → Live h cs → Live (remove a h) cs
Live-remove h a [] apart live = tt
Live-remove h a (b ∷ bs) apart live = (ground arith, Live-remove h a bs (ground arith) live.1)

pub without_lem :
    (cs : List ℕ) (h : Heap) (b : ℕ) → without cs h b ≡ (if has b cs then false else h b)
without_lem [] h b = refl
without_lem (a ∷ cs) h b = ground (arith, without_lem cs (remove a h) b)

-- Blocks that can be freed one after the other.
abbrev pub Ready : List Pointer → Heap → Type 0
Ready ps h = Distinct (blocks ps) × Live h (blocks ps)

-- A block that stays there meanwhile.
abbrev pub Stays : ℕ → List Pointer → Heap → Type 0
Stays a ps h = (has a (blocks ps) ≡ false) × (h a ≡ true)

abbrev pub freed : Pointer → Heap → Heap
freed none h = h
freed (some a) h = remove a h

pub free-Ready :
    (p : Pointer) (ps : List Pointer) (h : Heap) → Ready (p ∷ ps) h → free p h ≡ done (freed p h)
unfolding free
free-Ready none ps h r = refl
free-Ready (some a) ps h r = rw r.1.0

pub Ready-freed :
    (p : Pointer) (ps : List Pointer) (h : Heap) → Ready (p ∷ ps) h → Ready ps (freed p h)
Ready-freed none ps h r = r
Ready-freed (some a) ps h r = (r.0.1, Live-remove h a (blocks ps) r.0.0 r.1.1)

pub Stays-freed :
    (a : ℕ) (p : Pointer) (ps : List Pointer) (h : Heap)
    → Stays a (p ∷ ps) h
    → Stays a ps (freed p h)
Stays-freed a none ps h s = s
Stays-freed a (some b) ps h s = (ground arith, ground arith)

pub without-freed :
    (p : Pointer) (ps : List Pointer) (h : Heap)
    → without (blocks ps) (freed p h) ≡ without (blocks (p ∷ ps)) h
without-freed none ps h = refl
without-freed (some a) ps h = refl

pub free_all-without :
    (ps : List Pointer) (h : Heap) → Ready ps h → free_all ps h ≡ done (without (blocks ps) h)
unfolding free_all
free_all-without [] h r = refl
free_all-without (p ∷ ps) h r = rw (
  free-Ready p ps h r,
  free_all-without ps (freed p h) (Ready-freed p ps h r),
  without-freed p ps h,
)

pub access-Stays :
    (a : ℕ) (ps : List Pointer) (h : Heap) → Stays a ps h → access (some a) h ≡ done tt
unfolding access
access-Stays a ps h s = rw s.1

-- The strings of both arrays, in the order in which they are freed.
abbrev pub pairs : List Pointer → List Pointer → List Pointer
pairs [] vs = []
pairs (k ∷ ks) [] = []
pairs (k ∷ ks) (v ∷ vs) = k ∷ v ∷ pairs ks vs

-- What is left to free, and what stays, after the first blocks are gone.
pub Ready-without :
    (qs ps : List Pointer) (h : Heap) → Ready (qs ++ ps) h → Ready ps (without (blocks qs) h)
Ready-without [] ps h r = r
Ready-without (none ∷ qs) ps h r = Ready-without qs ps h r
Ready-without (some a ∷ qs) ps h r =
    Ready-without qs ps (remove a h) (Ready-freed (some a) (qs ++ ps) h r)

pub Stays-without :
    (a : ℕ) (qs ps : List Pointer) (h : Heap)
    → Stays a (qs ++ ps) h
    → Stays a ps (without (blocks qs) h)
Stays-without a [] ps h s = s
Stays-without a (none ∷ qs) ps h s = Stays-without a qs ps h s
Stays-without a (some b ∷ qs) ps h s =
    Stays-without a qs ps (remove b h) (Stays-freed a (some b) (qs ++ ps) h s)

pub without-append :
    (qs ps : List Pointer) (h : Heap)
    → without (blocks ps) (without (blocks qs) h) ≡ without (blocks (qs ++ ps)) h
without-append [] ps h = refl
without-append (none ∷ qs) ps h = without-append qs ps h
without-append (some a ∷ qs) ps h = without-append qs ps (remove a h)

pub Live-member :
    (qs : List Pointer) (a : ℕ) (ps : List Pointer) (h : Heap)
    → Live h (blocks (qs ++ (some a ∷ ps)))
    → h a ≡ true
Live-member [] a ps h live = live.0
Live-member (none ∷ qs) a ps h live = Live-member qs a ps h live
Live-member (some b ∷ qs) a ps h live = Live-member qs a ps h live.1

module _ (key value : ℕ) where
  pub clean_pairs-without :
      (ks vs ps : List Pointer) (h : Heap)
      → length ks ≡ length vs
      → Ready (pairs ks vs ++ ps) h
      → Stays key (pairs ks vs ++ ps) h
      → Stays value (pairs ks vs ++ ps) h
      → clean_pairs (some key) (some value) (length ks) ks vs h
        ≡ done (without (blocks (pairs ks vs)) h)
  unfolding clean_pairs
  clean_pairs-without [] vs ps h same r sk sv = refl
  clean_pairs-without (k ∷ ks) [] ps h same r sk sv = absurd (omega arith)
  clean_pairs-without (k ∷ ks) (v ∷ vs) ps h same r sk sv =
      let rest = pairs ks vs ++ ps in
      let h1 = freed k h in
      let h2 = freed v h1 in
      let r1 = Ready-freed k (v ∷ rest) h r in
      let sk1 = Stays-freed key k (v ∷ rest) h sk in
      let sv1 = Stays-freed value k (v ∷ rest) h sv in
      rw (
        access-Stays key (k ∷ v ∷ rest) h sk,
        free-Ready k (v ∷ rest) h r,
        access-Stays value (v ∷ rest) h1 sv1,
        free-Ready v rest h1 r1,
        clean_pairs-without ks vs ps h2 (omega arith) (Ready-freed v rest h1 r1)
            (Stays-freed key v rest h1 sk1) (Stays-freed value v rest h1 sv1),
        without-freed v (pairs ks vs) h1,
        without-freed k (v ∷ pairs ks vs) h,
      )

has-prefix :
    (a : ℕ) (ps qs : List Pointer) → has a (blocks (ps ++ qs)) ≡ false → has a (blocks ps) ≡ false
has-prefix a [] qs h = refl
has-prefix a (none ∷ ps) qs h = has-prefix a ps qs h
has-prefix a (some b ∷ ps) qs h = ground (arith, has-prefix a ps qs)

pub Ready-prefix : (ps qs : List Pointer) (h : Heap) → Ready (ps ++ qs) h → Ready ps h
Ready-prefix [] qs h r = (tt, tt)
Ready-prefix (none ∷ ps) qs h r = Ready-prefix ps qs h r
Ready-prefix (some a ∷ ps) qs h r =
    let (distinct, live) = Ready-prefix ps qs h (r.0.1, r.1.1) in
    ((has-prefix a ps qs r.0.0, distinct), (r.1.0, live))
