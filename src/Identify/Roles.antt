-- ===== src/Identify/Roles.antt =====
-- The roles of a presence, of which as many are read as their memory has bytes before the first NUL.
use libdiscord.Prelude.{
  ℕ, zero, suc, ◌+◌, ◌≡◌, ◌≢◌, refl, ap, ◌∙◌, ◌≤◌, none, some, List, [], ◌∷◌, ◌++◌, Bytes, length,
  take, get_elem?, leb, leb-true, leb-false, if◌then◌else◌, All, Exec, fault, done, arith, ==_ne,
  length-append, ◌⊎◌, inl, inr,
}
use mathlib.Core.List.{append_assoc}
use libdiscord.Jansson.{Jansson}
use libdiscord.Snowflake.{snowflake2str}
use libdiscord.Identify.{
  Identify, StatusUpdate, ConnectionProperties, put_presence, put_roles, append_roles, strlen,
  memory_bytes, unpack_status_update, unpack_identify, check_identify, identify_object,
}

get-append :
    (before after : List ℕ) (r : ℕ) → get_elem? (before ++ (r ∷ after)) (length before) ≡ some r
get-append [] after r = refl
get-append (b ∷ before) after r = get-append before after r

get-end : (before : List ℕ) → get_elem? (before ++ []) (length before) ≡ none
get-end [] = refl
get-end (b ∷ before) = get-end before

Exec-cases : {A : Type 0} (e : Exec A) → (e ≡ fault) ⊎ (a : A) × (e ≡ done a)
Exec-cases fault = inl refl
Exec-cases (done a) = inr (a, refl)

-- Where the first `k` bytes, of as many as there are, are not NUL, `strlen` runs off or counts at least `k`.
strlen_beyond :
    (k : ℕ) (s : Bytes)
    → All (λ c. c ≢ 0) (take k s)
    → (strlen s ≡ fault) ⊎ (n : ℕ) × (strlen s ≡ done n) × (k ≤ n)
unfolding strlen
strlen_beyond zero s nonzero = elim (Exec-cases (strlen s)) [
  | inl off ↦ inl off
  | inr (n, counted) ↦ inr (n, counted, omega arith)
]
strlen_beyond (suc k) [] nonzero = inl refl
strlen_beyond (suc k) (c ∷ s) nonzero = elim (strlen_beyond k s nonzero.1) [
  | inl off ↦ inl (rw (==_ne c 0 nonzero.0, off) refl)
  | inr (n, counted, above) ↦ inr (suc n, rw (==_ne c 0 nonzero.0, counted) refl, omega arith)
]

leb-suc : (a b : ℕ) → leb (suc a) (suc b) ≡ leb a b
leb-suc a b = ground arith

module _ {J : Type 0} (j : Jansson J) where
  -- An array with the decimal texts of roles after what it has; a text that is refused is left out.
  abbrev pub role_array : J → List ℕ → J
  role_array arr [] = arr
  role_array arr (r ∷ rs) =
      role_array (elim (j.string (snowflake2str r)) [ none ↦ arr | some v ↦ j.array_append arr v ])
        rs

  append_roles_lem :
      (n : ℕ) (before after : List ℕ) (arr : J)
      → append_roles j n (length before) (before ++ after) arr
        ≡ (if leb n (length after) then done (role_array arr (take n after)) else fault)
  unfolding append_roles
  append_roles_lem zero before after arr = rw (leb-true 0 (length after) (omega arith)) refl
  append_roles_lem (suc n) before [] arr =
      rw (get-end before, leb-false (suc n) 0 (omega arith)) refl
  append_roles_lem (suc n) before (r ∷ after) arr =
      let step : J = elim (j.string (snowflake2str r)) [
        | none ↦ arr
        | some v ↦ j.array_append arr v
      ] in
      let rest = append_roles_lem n (before ++ (r ∷ [])) after step in
      rw (get-append before after r, leb-suc n (length after))
        (ap (λ k. append_roles j n k (before ++ (r ∷ after)) step)
            (omega (arith, length-append before (r ∷ [])))
          ∙ ap (λ l. append_roles j n (length (before ++ (r ∷ []))) l step)
              (rw (append_assoc before (r ∷ []) after) refl)
          ∙ rest)

  put_roles_faults :
      (roles : List ℕ) (su : J)
      → All (λ c. c ≢ 0) (take (length roles + 1) (memory_bytes roles))
      → put_roles j (some roles) su ≡ fault
  unfolding put_roles
  put_roles_faults roles su nonzero =
      elim (strlen_beyond (length roles + 1) (memory_bytes roles) nonzero) [
        | inl off ↦ rw off refl
        | inr (n, counted, above) ↦
            rw
              (
                counted,
                append_roles_lem n [] roles j.array,
                leb-false n (length roles) (omega arith),
              )
              refl
      ]

  -- With a token, properties, and a presence whose roles start with one byte more than there are roles that
  -- is no NUL: making the IDENTIFY object reads past the roles.
  pub identify_roles_faults :
      (i : Identify) (t : Bytes) (p : ConnectionProperties) (s : StatusUpdate) (roles : List ℕ)
      → i.token ≡ some t
      → i.properties ≡ some p
      → i.status_update ≡ some s
      → s.roles ≡ some roles
      → All (λ c. c ≢ 0) (take (length roles + 1) (memory_bytes roles))
      → unpack_identify j i ≡ fault
  unfolding unpack_identify check_identify identify_object put_presence unpack_status_update
  identify_roles_faults i t p s roles has_token has_properties has_presence has_roles nonzero =
      rw (has_token, has_properties, has_presence, has_roles, put_roles_faults roles _ nonzero) refl
