-- ===== src/Bots/Ayylmao/Answers.antt =====
-- When the ayylmao bot answers, and what its callback leaves alone.
use libdiscord.Prelude.{
  ℕ, ◌≡◌, ◌≢◌, ◌⊎◌, inl, inr, refl, ℤ, pos, Bool, true, false, some, ◌++◌, map, Bytes, ◌==◌,
  if◌then◌else◌, Exec, done, ◌>>=◌, ==_refl, ==_ne, ◌∙◌, Ensures, Ensures->>=, Ensures->>=-any,
  Ensures-deref, Ensures-if,
}
use libdiscord.Stdlib.{lower, strncasecmp_eq}
use libdiscord.Stdlib.Prefix.{strncasecmp_eq-append}
use libdiscord.Message.{Message, message_init, pack_message}
use libdiscord.Context.{Context, CallbackReason, CallbackData, json, message_create}
use libdiscord.Connect.Kept.{kept, send_basic_message-Kept}
use libdiscord.Bots.{Surroundings, message_of, is_own, is_by_bot, answer}
use libdiscord.Bots.Sender.{
  Known, Foreign, is_own-Known, is_by_bot-Known, is_own-Foreign, is_by_bot-Foreign,
}
use libdiscord.Bots.Ayylmao.{respond, judge, callback}

-- Tests that all lead to the same.
by_tests :
    {A : Type 0} (a b c : Bool) (x : A) → (if a then x else if b then x else if c then x else x) ≡ x
by_tests true b c x = refl
by_tests false true c x = refl
by_tests false false true x = refl
by_tests false false false x = refl

module _ {J R : Type 0} (s : Surroundings J) (trigger response : Bytes) where
  abbrev Kept : Context R → ℤ × Context R → Type 0
  Kept c x = kept x.1 ≡ kept c

  respond-Kept : (c : Context R) (m : Message) → Ensures (Kept c) (respond s trigger response c m)
  unfolding respond answer
  respond-Kept c m = Ensures-deref (Kept c) m.content _ (λ content e.
      Ensures-if (Kept c) (strncasecmp_eq content trigger) _ _
        (Ensures->>= (Kept c) (Kept c) (answer s c m.channel_id response) _
          (send_basic_message-Kept s.web s.jansson c s.new_response m.channel_id response)
          (λ (n, c') same. same))
        refl)

  judge-Kept : (c : Context R) (m : Message) → Ensures (Kept c) (judge s trigger response c m)
  unfolding judge
  judge-Kept c m = Ensures->>=-any (Kept c) (is_own c m) _ (λ own.
      Ensures->>=-any (Kept c) (is_by_bot m) _ (λ by_bot. Ensures-if (Kept c) own _ _ refl (
        Ensures-if (Kept c) by_bot _ _ refl
          (Ensures-if (Kept c) (m.channel_id == 0) _ _ refl (respond-Kept c m)))))

  -- The callback never touches the ring of payloads, the session or the receive buffer.
  pub callback-Kept :
      (c : Context R) (reason : CallbackReason) (d : CallbackData J) (len : ℕ)
      → Ensures (Kept c) (callback s trigger response c reason d len)
  unfolding callback
  callback-Kept c message_create d len =
      Ensures->>=-any (Kept c) (message_of s d) _ (λ m. judge-Kept c m)
  callback-Kept c _ d len = refl

  judge-Foreign :
      (c : Context R) (m : Message) (known : Known c m)
      → Foreign c m known
      → m.channel_id ≢ 0
      → judge s trigger response c m ≡ respond s trigger response c m
  unfolding judge
  judge-Foreign c m known foreign somewhere =
      rw
        (
          is_own-Foreign c m known foreign,
          is_by_bot-Foreign c m known foreign,
          ==_ne m.channel_id 0 somewhere,
        )
        refl

  -- The answer, with its result not looked at.
  abbrev pub answered : Context R → Message → Exec (ℤ × Context R)
  answered c m = answer s c m.channel_id response >>= λ (n, c'). done (pos 0, c')

  respond_prefixed :
      (c : Context R) (m : Message) (content : Bytes)
      → m.content ≡ some content
      → strncasecmp_eq content trigger ≡ true
      → respond s trigger response c m ≡ answered c m
  unfolding respond
  respond_prefixed c m content has_content prefixed = rw (has_content, prefixed) refl

  -- A message in a channel, of another user who is no bot, whose text starts with the trigger in any
  -- spelling of capitals and small letters, is answered with the response in its channel; the callback
  -- returns 0.
  pub callback_answers :
      (c : Context R) (v : J) (len : ℕ) (typed rest : Bytes)
      (known : Known c (pack_message s.jansson s.malloc_user message_init v))
      → Foreign c (pack_message s.jansson s.malloc_user message_init v) known
      → (pack_message s.jansson s.malloc_user message_init v).channel_id ≢ 0
      → (pack_message s.jansson s.malloc_user message_init v).content ≡ some (typed ++ rest)
      → map lower typed ≡ map lower trigger
      → callback s trigger response c message_create (json (some v)) len
        ≡ answered c (pack_message s.jansson s.malloc_user message_init v)
  unfolding callback message_of
  callback_answers c v len typed rest known foreign somewhere has_content spelt =
      let m = pack_message s.jansson s.malloc_user message_init v in
      judge-Foreign c m known foreign somewhere
      ∙ respond_prefixed c m (typed ++ rest) has_content
          (strncasecmp_eq-append typed rest trigger spelt)

  -- Why a message is passed over.
  abbrev pub PassedOver : (c : Context R) (m : Message) → Known c m → Type 0
  PassedOver c m known =
      (known.author.id ≡ known.me.id)
      ⊎ ((known.author.bot ≡ true)
          ⊎ ((m.channel_id ≡ 0)
              ⊎ ((content : Bytes) × (m.content ≡ some content)
                  × (strncasecmp_eq content trigger ≡ false))))

  -- The bot's own messages, those of bots, those without a channel and those that do not start with the
  -- trigger are passed over: 0 is returned and the context stays as it is.
  pub callback_passes_over :
      (c : Context R) (v : J) (len : ℕ)
      (known : Known c (pack_message s.jansson s.malloc_user message_init v))
      → PassedOver c (pack_message s.jansson s.malloc_user message_init v) known
      → callback s trigger response c message_create (json (some v)) len ≡ done (pos 0, c)
  unfolding callback message_of judge respond
  callback_passes_over c v len known why =
      let m = pack_message s.jansson s.malloc_user message_init v in
      let own = known.author.id == known.me.id in
      let by_bot = known.author.bot in
      elim why [
        | inl e ↦
            rw (is_own-Known c m known, is_by_bot-Known c m known, e, ==_refl known.me.id) refl
        | inr (inl e) ↦
            rw (is_own-Known c m known, is_by_bot-Known c m known, e)
              (by_tests own true true (done (pos 0, c)))
        | inr (inr (inl e)) ↦
            rw (is_own-Known c m known, is_by_bot-Known c m known, e)
              (by_tests own by_bot true (done (pos 0, c)))
        | inr (inr (inr (content, has_content, other))) ↦
            rw (is_own-Known c m known, is_by_bot-Known c m known, has_content, other)
              (by_tests own by_bot (m.channel_id == 0) (done (pos 0, c)))
      ]
