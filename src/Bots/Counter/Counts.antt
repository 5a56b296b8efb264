-- ===== src/Bots/Counter/Counts.antt =====
-- What the counting bot answers.
use libdiscord.Prelude.{
  ℕ, suc, ◌^◌, ◌-◌, ◌<◌, ◌≡◌, refl, ap, ◌∙◌, ◌+ℤ◌, ℤ, pos, Bool, true, false, some, Bytes, length,
  Exec, fault, done, ◌>>=◌, text, bytes_eq, arith, lt→ltb, Bool-cases, inl, inr, eq_of_bytes_eq,
  sym,
}
use libdiscord.Stdlib.{has_number, print_decimal}
use libdiscord.Stdlib.Decimal.{strtol-print_decimal, has_number-print_decimal, length-print_decimal}
use libdiscord.Message.{Message, message_init, pack_message}
use libdiscord.Context.{Context, json, message_create}
use libdiscord.Bots.{Surroundings, message_of, answer}
use libdiscord.Bots.Sender.{Known, Foreign, is_own-Foreign, is_by_bot-Foreign}
use libdiscord.Bots.Counter.{next_count, respond, judge, callback}

-- Below the greatest `long long`, the next count is the next number.
next_count-pos : (n : ℕ) → n < 2 ^ 63 - 1 → next_count (pos n) ≡ done (pos (suc n))
unfolding next_count ◌+ℤ◌
next_count-pos n small = ground arith

-- A number is no "hcf".
no_halt : (n : ℕ) → bytes_eq (print_decimal n) (text "hcf") ≡ false
unfolding has_number text
no_halt n = elim (Bool-cases (bytes_eq (print_decimal n) (text "hcf"))) [
  | inl e ↦
      let same = ap has_number (eq_of_bytes_eq (print_decimal n) (text "hcf") e) in
      let absurd : false ≡ true = sym same ∙ has_number-print_decimal n in cc
  | inr e ↦ e
]

-- A result that is not looked at, twice.
twice_unread :
    {A : Type 0} (m : Exec (ℤ × A))
    → ◌≡◌ {A = Exec (Bool × ℤ × A)}
        ((m >>= λ (i, a). done (pos 0, a)) >>= λ (i, a). done (false, i, a))
        (m >>= λ (i, a). done (false, pos 0, a))
twice_unread fault = refl
twice_unread (done (i, a)) = refl

module _ {J R : Type 0} (s : Surroundings J) where
  -- The reply, with its result not looked at.
  abbrev pub replied : Context R → ℕ → Bytes → Exec (Bool × ℤ × Context R)
  replied c channel reply = answer s c channel reply >>= λ (n, c'). done (false, pos 0, c')

  respond_counts :
      (c : Context R) (m : Message) (n : ℕ) (known : Known c m)
      → Foreign c m known
      → n < 2 ^ 63 - 1
      → respond s true c m (print_decimal n)
        ≡ (answer s c m.channel_id (print_decimal (suc n)) >>= λ (i, c'). done (pos 0, c'))
  unfolding respond
  respond_counts c m n known foreign small =
      rw
        (
          is_own-Foreign c m known foreign,
          is_by_bot-Foreign c m known foreign,
          strtol-print_decimal n (omega arith),
          next_count-pos n small,
          lt→ltb (length (print_decimal (suc n))) 64
              (omega (arith, length-print_decimal (suc n) (omega arith))),
        )
        refl

  -- With luck, a message of another user who is no bot, whose text is a number below the greatest `long
  -- long`, is answered with the next number in its channel; `bot_exit` stays, and the result is 0.
  pub callback_counts :
      (c : Context R) (v : J) (len n : ℕ)
      (known : Known c (pack_message s.jansson s.malloc_user message_init v))
      → Foreign c (pack_message s.jansson s.malloc_user message_init v) known
      → (pack_message s.jansson s.malloc_user message_init v).content ≡ some (print_decimal n)
      → n < 2 ^ 63 - 1
      → callback s true c message_create (json (some v)) len
        ≡ replied c
            (pack_message s.jansson s.malloc_user message_init v).channel_id
            (print_decimal (suc n))
  unfolding callback message_of judge
  callback_counts c v len n known foreign has_content small =
      let m = pack_message s.jansson s.malloc_user message_init v in
      rw
        (
          has_content,
          has_number-print_decimal n,
          no_halt n,
          respond_counts c m n known foreign small,
        )
        (twice_unread (answer s c m.channel_id (print_decimal (suc n))))
