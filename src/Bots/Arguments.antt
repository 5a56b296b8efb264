-- ===== src/Bots/Arguments.antt =====
-- What the reading of a bot's arguments keeps, whatever the settings are.
use libdiscord.Prelude.{◌≡◌, sym, List, [], ◌∷◌}
use mathlib.Core.List.{Memᴰ}
use libdiscord.Bots.{Argument, Start, exit, aborted, go, and_then, read_all}

module _ {S : Type 0} where
  -- What holds of the settings, where a program goes on.
  abbrev pub OfStart : (S → Type 0) → Start S → Type 0
  OfStart P (exit i) = Unit {0}
  OfStart P aborted = Unit {0}
  OfStart P (go s) = P s

  pub OfStart-and_then :
      (P Q : S → Type 0) (p : Start S) (f : S → Start S)
      → OfStart P p
      → ((s : S) → P s → OfStart Q (f s))
      → OfStart Q (and_then p f)
  OfStart-and_then P Q (exit i) f h k = tt
  OfStart-and_then P Q aborted f h k = tt
  OfStart-and_then P Q (go s) f h k = k s h

  pub OfStart-go : (P : S → Type 0) (p : Start S) (s : S) → OfStart P p → p ≡ go s → P s
  OfStart-go P p s h e = rw e at h

  OfStart-any : (p : Start S) → OfStart (λ s. Unit {0}) p
  OfStart-any (exit i) = tt
  OfStart-any aborted = tt
  OfStart-any (go s) = tt

  -- What each option keeps, the loop over the options keeps.
  pub read_all-OfStart :
      (P : S → Type 0) (read : S → Argument → Start S) (s : S) (arguments : List Argument)
      → ((s : S) (a : Argument) → P s → OfStart P (read s a))
      → P s
      → OfStart P (read_all read s arguments)
  unfolding read_all
  read_all-OfStart P read s [] keeps h = h
  read_all-OfStart P read s (a ∷ arguments) keeps h =
      OfStart-and_then P P (read s a) (λ s'. read_all read s' arguments) (keeps s a h)
        (λ s' h'. read_all-OfStart P read s' arguments keeps h')

  -- An option that always ends the program ends the loop.
  pub read_all-ends :
      (read : S → Argument → Start S) (s : S) (arguments : List Argument) (a : Argument)
      → Memᴰ a arguments
      → ((s : S) → OfStart (λ s'. ⊥) (read s a))
      → OfStart (λ s'. ⊥) (read_all read s arguments)
  unfolding read_all
  read_all-ends read s [] a listed ends = elim listed [ ]
  read_all-ends read s (b ∷ arguments) a (Memᴰ.head e) ends =
      OfStart-and_then (λ s'. ⊥) (λ s'. ⊥) (read s b) (λ s'. read_all read s' arguments)
        (rw (sym e) (ends s)) (λ s' absurd. elim absurd [ ])
  read_all-ends read s (b ∷ arguments) a (Memᴰ.tail later) ends =
      OfStart-and_then (λ s'. Unit {0}) (λ s'. ⊥) (read s b) (λ s'. read_all read s' arguments)
        (OfStart-any (read s b)) (λ s' u. read_all-ends read s' arguments a later ends)
