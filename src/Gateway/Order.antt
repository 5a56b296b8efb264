-- ===== src/Gateway/Order.antt =====
-- What sending promises: a queue of texts. Texts are put at its end, and taken from its front to be
-- handed to the connection; nothing is lost, repeated or overtaken.
pub mod Refine
use libdiscord.Prelude.{◌≡◌, refl, sym, ap, ◌∙◌, List, [], ◌∷◌, ◌++◌, Bytes}
use mathlib.Core.List.{append-nil, append_assoc}

-- The texts that wait, oldest first, and those that were handed over, in that order.
pub record Outbox : Type 0 where
  pub waiting : List Bytes
  pub handed : List Bytes

pub data Step : Outbox → Outbox → Type 0 where
  put : (q : Outbox) (s : Bytes) → Step q (record q { waiting = q.waiting ++ (s ∷ []) })
  hand :
      (s : Bytes) (ss handed : List Bytes)
      → Step
          (record { waiting = s ∷ ss; handed = handed })
          (record { waiting = ss; handed = handed ++ (s ∷ []) })

pub data Steps (q : Outbox) : Outbox → Type 0 where
  here : Steps q q
  next : {r s : Outbox} → Steps q r → Step r s → Steps q s

pub Steps-trans : {q r s : Outbox} → Steps q r → Steps r s → Steps q s
Steps-trans a here = a
Steps-trans a (next b st) = next (Steps-trans a b) st

-- Every text that was ever put, in order.
abbrev pub history : Outbox → List Bytes
history q = q.handed ++ q.waiting

-- What came after.
abbrev pub Extends : List Bytes → List Bytes → Type 0
Extends xs ys = (new : List Bytes) × (ys ≡ xs ++ new)

Extends-trans : (xs ys zs : List Bytes) → Extends xs ys → Extends ys zs → Extends xs zs
Extends-trans xs ys zs (new, e) (more, e') =
    (new ++ more, e' ∙ ap (λ l. l ++ more) e ∙ append_assoc xs new more)

Step-history : {q r : Outbox} → Step q r → Extends (history q) (history r)
Step-history (put q s) = (s ∷ [], sym (append_assoc q.handed q.waiting (s ∷ [])))
Step-history (hand s ss handed) =
    ([], append_assoc handed (s ∷ []) ss ∙ sym (append-nil (handed ++ (s ∷ ss))))

Step-handed : {q r : Outbox} → Step q r → Extends q.handed r.handed
Step-handed (put q s) = ([], sym (append-nil q.handed))
Step-handed (hand s ss handed) = (s ∷ [], refl)

-- Over any steps, the history and the texts that were handed over only grow at their ends.
pub Steps-Extends :
    {q r : Outbox} → Steps q r → Extends (history q) (history r) × Extends q.handed r.handed
Steps-Extends {q} here = (([], sym (append-nil (history q))), ([], sym (append-nil q.handed)))
Steps-Extends {q} {r} (next {r = m} a st) =
    let (grown, sent) = Steps-Extends a in
    (
      Extends-trans (history q) (history m) (history r) grown (Step-history st),
      Extends-trans q.handed m.handed r.handed sent (Step-handed st),
    )
