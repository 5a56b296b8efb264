-- ===== src/Memory.antt =====
-- Who frees what: the blocks of the heap by their addresses, with `free` of the C library.
pub mod Without
pub mod Requests
pub mod Contexts
pub mod Structures
use libdiscord.Prelude.{
  ℕ, zero, suc, Bool, true, false, Option, none, some, List, [], ◌∷◌, ◌==◌, if◌then◌else◌, Exec,
  done, fault, deref, within, ◌>>=◌, ◌>>◌,
}

-- An address; `none` is NULL.
abbrev pub Pointer : Type 0
Pointer = Option ℕ

-- The addresses of the blocks that are allocated and not freed.
abbrev pub Heap : Type 0
Heap = ℕ → Bool

abbrev pub remove : ℕ → Heap → Heap
remove a h = λ b. if a == b then false else h b

-- `free`: nothing for NULL, undefined for a block that is not there.
unfoldable pub free : Pointer → Heap → Exec Heap
free none h = done h
free (some a) h = within (h a) >> done (remove a h)

-- Several blocks, one after the other; `if(p != NULL) free(p)` is `free(p)`.
unfoldable pub free_all : List Pointer → Heap → Exec Heap
unfolding free
free_all [] h = done h
free_all (p ∷ ps) h = free p h >>= free_all ps

-- A read or write through a pointer.
unfoldable pub access : Pointer → Heap → Exec (Unit {0})
access p h = do a ← deref p; within (h a)

-- The block that `malloc` gave at the address `a`, if it gave one.
abbrev pub add : Pointer → Heap → Heap
add none h = h
add (some a) h = λ b. if a == b then true else h b

-- `struct ld_headers` by its pointers. `none` is a length that nothing has set.
pub record HeaderBlocks : Type 0 where
  pub length : Option ℕ
  pub key : Pointer
  pub value : Pointer
  -- the pointers in the two arrays
  pub keys : List Pointer
  pub values : List Pointer

-- The loop of `ld_headers_clean`, over the pairs that are left.
unfoldable pub clean_pairs : Pointer → Pointer → ℕ → List Pointer → List Pointer → Heap → Exec Heap
unfolding free access
clean_pairs key value zero ks vs h = done h
clean_pairs key value (suc n) (k ∷ ks) (v ∷ vs) h = do
  access key h
  h1 ← free k h
  access value h1
  h2 ← free v h1
  clean_pairs key value n ks vs h2
clean_pairs key value (suc n) ks vs h = fault

-- `ld_headers_clean`: the strings are freed, the arrays are not.
unfoldable pub clean_headers : Pointer → HeaderBlocks → Heap → Exec (HeaderBlocks × Heap)
unfolding clean_pairs access
clean_headers headers b h = do
  access headers h
  n ← deref b.length
  h' ← clean_pairs b.key b.value n b.keys b.values h
  done (record b { length = some 0 }, h')
