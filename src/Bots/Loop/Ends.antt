-- ===== src/Bots/Loop/Ends.antt =====
-- When the loops of the bots end.
use libdiscord.Prelude.{
  ◌≡◌, refl, ◌∙◌, ℤ, pos, ◌+ℤ◌, ◌≤ℤ◌, Bool, true, false, List, [], ◌∷◌, length, ◌==◌, if◌then◌else◌,
  is_some, Exec, fault, done, ◌>>=◌, All,
}
use libdiscord.Status.{is_ok}
use libdiscord.Context.{Context, Platform}
use libdiscord.Gateway.Dispatch.{Result}
use libdiscord.Gateway.Heartbeat.{is_due}
use libdiscord.Gateway.Callback.{Host}
use libdiscord.Gateway.Service.{Round, service}
use libdiscord.Gateway.Service.Missed.{rounds, rounds-missed, service_missed, counted}
use libdiscord.Bots.Ayylmao
use libdiscord.Bots.Loop.{Turn, service_loop}

either : {A : Type 0} (b : Bool) (x : A) → (if b then x else x) ≡ x
either true x = refl
either false x = refl

-- A status that nobody reads.
unread :
    {A B : Type 0} (status : ℤ) (m : Exec (List ℤ × A))
    → ◌≡◌ {A = Exec (A × List B)}
        (m >>= λ (statuses, h). done (h, []))
        ((m >>= λ (statuses, h). done (status ∷ statuses, h)) >>= λ (statuses, h). done (h, []))
unread status fault = refl
unread status (done (statuses, h)) = refl

module _ {J R : Type 0} (env : Platform J R) (connect : Context R → Exec (Result env)) where
  -- The loop of the ayylmao bot with its `fail_mode` of 1 never stops on its own.
  pub loop-rounds :
      (h : Host R) (ws : List Round)
      → Ayylmao.loop env connect 1 h ws
        ≡ (rounds env connect h ws >>= λ (statuses, h'). done (h', []))
  unfolding Ayylmao.loop rounds
  loop-rounds h [] = refl
  loop-rounds h (w ∷ ws) = from (service env connect h w) (λ h'. loop-rounds h' ws)
    where
      from :
          (m : Exec (ℤ × Host R))
          → ((h' : Host R)
              → Ayylmao.loop env connect 1 h' ws
                ≡ (rounds env connect h' ws >>= λ (statuses, h2). done (h2, [])))
          → (m >>= λ (ret, h').
              let again = Ayylmao.loop env connect 1 h' ws in
              if is_ok ret then again else if ◌==◌ 1 1 then again else done (h', ws))
            ≡ ((m >>= λ (status, h1).
                  rounds env connect h1 ws >>= λ (statuses, h2). done (status ∷ statuses, h2))
                >>= λ (statuses, h'). done (h', []))
      from fault again = refl
      from (done (ret, h')) again =
          either (is_ok ret) (Ayylmao.loop env connect 1 h' ws)
          ∙ again h'
          ∙ unread ret (rounds env connect h' ws)

  -- One acknowledgement missed while connected, and a heartbeat due at every reading of the clock: the
  -- ayylmao bot goes through all the rounds, and changes nothing but the count of heartbeats.
  pub loop-missed :
      (h : Host R) (ws : List Round)
      → is_some h.context.lws_wsi ≡ true
      → All (λ w. is_due env h.context w.now ≡ true) ws
      → pos 1 ≤ℤ h.context.hb_count
      → Ayylmao.loop env connect 1 h ws
        ≡ done (counted h (h.context.hb_count +ℤ pos (length ws)), [])
  loop-missed h ws connected due waiting =
      loop-rounds h ws ∙ rw (rounds-missed env connect h ws connected due waiting) refl

  -- The counting, hashing and pinging bots end in the first of these rounds.
  pub service_loop-missed :
      (h : Host R) (halted : Bool) (w : Round) (ws : List Turn)
      → is_some h.context.lws_wsi ≡ true
      → is_due env h.context w.now ≡ true
      → pos 1 ≤ℤ h.context.hb_count
      → service_loop env connect h ((halted, w) ∷ ws)
        ≡ done (counted h (h.context.hb_count +ℤ pos 1), ws)
  unfolding service_loop
  service_loop-missed h halted w ws connected due waiting =
      rw (service_missed env connect h w connected due waiting) refl
