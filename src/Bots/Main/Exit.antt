-- ===== src/Bots/Main/Exit.antt =====
-- What the counting bot's exit code says.
use libdiscord.Prelude.{
  ◌≡◌, refl, sym, ap, ◌∙◌, ℤ, pos, Bool, true, false, inl, inr, Option, none, some, List, is_some,
  eqb_ℤ, Exec, done, arith, Bool-cases, Ensures, Ensures->>=, Ensures->>=-any, Ensures-deref,
  Ensures-if, Ensures-done, Ensures-map,
}
use libdiscord.Status.{is_ok}
use libdiscord.Init.{
  Setup, ContextInfo, init_curl, init_lws, init_properties, init_tracking, init_required, init_rest,
  init_with_curl, init_context, init_context_opt, zero_context,
}
use libdiscord.Context.{Context, Handle, Platform}
use libdiscord.Gateway.Dispatch.{Result}
use libdiscord.Gateway.Callback.{Host}
use libdiscord.Bots.Counter
use libdiscord.Bots.Loop.{Turn, bot_loop}
use libdiscord.Bots.Main.{counter_main, fresh_host}

module _ {R : Type 0} (setup : Setup R) where
  abbrev SameCurl : Context R → Context R → Type 0
  SameCurl c c' = c'.curl_handle ≡ c.curl_handle

  init_lws-SameCurl :
      (info : Option ContextInfo) (c : Context R) → SameCurl c (init_lws setup info c).1
  unfolding init_lws
  init_lws-SameCurl info c = ground arith

  init_properties-SameCurl :
      (info : Option ContextInfo) (c : Context R)
      → Ensures (SameCurl c) (init_properties setup info c)
  unfolding init_properties
  init_properties-SameCurl none c = refl
  init_properties-SameCurl (some info) c = ground arith

  init_required-SameCurl :
      (info : ContextInfo) (c : Context R) → SameCurl c (init_required setup info c).1
  unfolding init_required
  init_required-SameCurl info c = ground arith

  init_rest-SameCurl :
      (info : Option ContextInfo) (ret : ℤ) (c : Context R)
      → Ensures (λ x. SameCurl c x.1) (init_rest setup info (ret, c))
  unfolding init_rest init_tracking
  init_rest-SameCurl info ret c =
      Ensures-if (λ x. SameCurl c x.1) (is_ok ret) _ _
        (Ensures->>= (SameCurl c) (λ x. SameCurl c x.1) _ _
          (init_properties-SameCurl info (init_tracking setup c)) (λ c' same. last c' info same))
        refl
    where
      last :
          (c' : Context R) (info : Option ContextInfo)
          → SameCurl c c'
          → Ensures
              (λ x. SameCurl c x.1)
              (elim info as (λ _. Exec (ℤ × Context R)) [
                | none ↦ done (pos 0, c')
                | some given ↦ done (init_required setup given c')
              ])
      last c' none same = same
      last c' (some given) same = init_required-SameCurl given c' ∙ same

  -- A set-up that succeeds has made a handle for requests.
  HasCurl : ℤ × Context R → Type 0
  HasCurl x = is_ok x.0 ≡ true → is_some x.1.curl_handle ≡ true

  init_curl-HasCurl : (c : Context R) → HasCurl (init_curl setup c)
  unfolding init_curl HasCurl
  init_curl-HasCurl c = ground arith

  handle_kept :
      (c c' : Context R)
      → is_some c.curl_handle ≡ true
      → SameCurl c c'
      → is_some c'.curl_handle ≡ true
  handle_kept c c' made same = ap is_some same ∙ made

  init_with_curl-HasCurl :
      (info : Option ContextInfo) (ret : ℤ) (c : Context R)
      → HasCurl (ret, c)
      → Ensures HasCurl (init_with_curl setup info (ret, c))
  unfolding init_with_curl HasCurl
  init_with_curl-HasCurl info ret c made = elim (Bool-cases (is_ok ret)) [
    | inl e ↦
        let x = init_lws setup info c in
        rw e (
          Ensures-map (λ y. SameCurl x.1 y.1) HasCurl (init_rest setup info x)
            (init_rest-SameCurl info x.0 x.1)
            (λ y same fine.
              handle_kept x.1 y.1 (handle_kept c x.1 (made e) (init_lws-SameCurl info c)) same))
    | inr e ↦ rw e (λ fine. made fine)
  ]

  init_context-HasCurl : (info : Option ContextInfo) → Ensures HasCurl (init_context setup info)
  unfolding init_context
  init_context-HasCurl info =
      let x = init_curl setup zero_context in
      init_with_curl-HasCurl info x.0 x.1 (init_curl-HasCurl zero_context)

  HasCurlOpt : ℤ × Option (Context R) → Type 0
  HasCurlOpt x = is_ok x.0 ≡ true → (c : Context R) → x.1 ≡ some c → is_some c.curl_handle ≡ true

  init_context_opt-HasCurl :
      (info : Option ContextInfo) (allocated : Bool)
      → Ensures HasCurlOpt (init_context_opt setup info allocated)
  unfolding init_context_opt HasCurlOpt HasCurl
  init_context_opt-HasCurl info false = λ fine c e. cc
  init_context_opt-HasCurl info true =
      Ensures->>= HasCurl HasCurlOpt (init_context setup info) _ (init_context-HasCurl info)
        (λ x made fine c e.
          let same : x.1 ≡ c = cc in ap (λ k. is_some k.curl_handle) (sym same) ∙ made fine)

module _ {J R : Type 0} (setup : Setup R) (env : Platform J R)
    (connect : Context R → Exec (Result env)) (callback : Handle) (memory : ContextInfo) where
  Zero : ℤ × Option (Host R) → Type 0
  Zero x = x.0 ≡ pos 0

  main-Zero :
      (s : Counter.Settings) (allocated halted : Bool) (ws : List Turn)
      → Ensures Zero (counter_main setup env connect callback memory s allocated halted ws)
  unfolding counter_main Zero HasCurlOpt
  main-Zero s allocated halted ws =
      Ensures->>= (HasCurlOpt setup) Zero _ _ (init_context_opt-HasCurl setup _ allocated)
        (λ x made. elim (Bool-cases (eqb_ℤ x.0 (pos 0))) [
          | inl e ↦ rw e (
              Ensures-deref Zero x.1 _ (λ c has. rw (made e c has) (
                Ensures->>=-any Zero (bot_loop env connect (fresh_host c) halted ws) _
                  (λ r. refl))))
          | inr e ↦ rw e refl
        ])

  -- Whatever the set-up, the connection and the turns of its loop give, errors included: whenever the
  -- counting bot returns from behind its options, the exit code is 0.
  pub counter_main_zero :
      (s : Counter.Settings) (allocated halted : Bool) (ws : List Turn) (exit : ℤ)
      (h : Option (Host R))
      → counter_main setup env connect callback memory s allocated halted ws ≡ done (exit, h)
      → exit ≡ pos 0
  unfolding Zero
  counter_main_zero s allocated halted ws exit h returns =
      Ensures-done Zero (counter_main setup env connect callback memory s allocated halted ws)
        (main-Zero s allocated halted ws) returns
