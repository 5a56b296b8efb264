-- ===== src/Bots/Hash/Words.antt =====
-- The words of a command of the hashing bot.
use libdiscord.Prelude.{
  ℕ, ◌+◌, ◌≤◌, ◌≡◌, refl, ap, sym, ◌∙◌, ℤ, none, some, [], ◌∷◌, ◌++◌, Bytes, length, if◌then◌else◌,
  Exec, fault, done, ◌>>=◌, text, arith, length-append, drop-append, leb-true, leb-false,
}
use mathlib.Core.List.{append_assoc}
use libdiscord.Status.{code, ok, curl_err, is_ok}
use libdiscord.Stdlib.{skip_space, word}
use libdiscord.Stdlib.Prefix.{Solid, word-append, word-Solid, skip_space-Solid}
use libdiscord.Bots.Hash.{text_at}

-- The word of a command that has a text as well, and of one that has none.
pub first_word :
    (x : ℕ) (name input : Bytes)
    → Solid (x ∷ name)
    → word (skip_space ((x ∷ name) ++ (32 ∷ input))) ≡ x ∷ name
first_word x name input (here, solid) =
    ap word (skip_space-Solid x (name ++ (32 ∷ input)) here)
    ∙ word-append (x ∷ name) input 32 (here, solid) refl

pub only_word : (x : ℕ) (name : Bytes) → Solid (x ∷ name) → word (skip_space (x ∷ name)) ≡ x ∷ name
only_word x name (here, solid) =
    ap word (skip_space-Solid x name here) ∙ word-Solid (x ∷ name) (here, solid)

pub text_at-input :
    (name input : Bytes) → text_at (name ++ (32 ∷ input)) (length name + 1) ≡ some input
text_at-input name input =
    rw
      (
        leb-true (length name + 1) (length (name ++ (32 ∷ input)))
            (omega (arith, length-append name (32 ∷ input))),
        sym (length-append name (32 ∷ [])),
        sym (append_assoc name (32 ∷ []) input),
        drop-append (name ++ (32 ∷ [])) input,
      )
      refl

pub length-complaint :
    (name : Bytes)
    → 76 ≤ length name
    → 100 ≤ length (text "invalid hash function (" ++ (name ++ text ")"))
unfolding text
length-complaint name long = omega (arith, length-append name (text ")"))

-- A result that is turned into a status, and put with something else.
pub status_last :
    {A B : Type 0} (m : Exec (ℤ × A)) (b : B)
    → ◌≡◌ {A = Exec (ℤ × B × A)}
        ((m >>= λ (ret, a). done (if is_ok ret then code ok else code curl_err, a)) >>= λ (ret, a).
          done (ret, b, a))
        (m >>= λ (ret, a). done (if is_ok ret then code ok else code curl_err, b, a))
status_last fault b = refl
status_last (done (ret, a)) b = refl

pub text_at-end : (name : Bytes) → text_at name (length name + 1) ≡ none
text_at-end name = rw (leb-false (length name + 1) (length name) (omega arith)) refl
