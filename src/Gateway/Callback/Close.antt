-- ===== src/Gateway/Callback/Close.antt =====
-- A close that the gateway starts.
use libdiscord.Prelude.{
  ℕ, ◌+◌, ◌*◌, ◌≡◌, ◌≢◌, ◌⊎◌, ◌∙◌, ℤ, none, some, ◌∷◌, Bytes, arith, Exec, fault, done, ◌>>=◌,
}
use libdiscord.Stdlib.{strndup}
use libdiscord.Context.{Context, Handle, close_message, Platform, ws_gateway_init_close}
use libdiscord.Gateway.Callback.{end_session, peer_close}

-- The close code of a frame: its first two bytes.
abbrev pub close_code_of : ℕ → ℕ → ℕ
close_code_of high low = high * 256 + low

module _ {J R : Type 0} (env : Platform J R) where
  -- What the user's callback is given, and leaves.
  abbrev pub after_close : Handle → Context R → ℕ → Bytes → Exec (ℤ × Context R)
  after_close f c n message =
      env.call f (record c { close_code = n }) ws_gateway_init_close (close_message (some message))
        n

  peer_close_run :
      (c : Context R) (f : Handle) (high low len : ℕ) (rest message : Bytes)
      → c.user_callback ≡ some f
      → len ≢ 0
      → strndup (low ∷ rest) len ≡ some message
      → peer_close env c (high ∷ low ∷ rest) len
        ≡ (after_close f c (close_code_of high low) message >>= λ r. end_session env r.1)
  unfolding peer_close
  peer_close_run c f high low len rest message callback some_len copied = ground arith

  -- A close with code 1000 or 4006 reaches undefined behaviour where `context->gi` is null, as it is in
  -- every context that `ld_init_context` made, unless the user's callback changes `gi` or the code.
  pub peer_close_faults :
      (c : Context R) (f : Handle) (high low len : ℕ) (rest message : Bytes) (i : ℤ)
      (c' : Context R)
      → let n = close_code_of high low in
        c.user_callback ≡ some f
        → len ≢ 0
        → strndup (low ∷ rest) len ≡ some message
        → (n ≡ 1000) ⊎ (n ≡ 4006)
        → after_close f c n message ≡ done (i, c')
        → c'.close_code ≡ n
        → c'.gi ≡ none
        → peer_close env c (high ∷ low ∷ rest) len ≡ fault
  unfolding end_session
  peer_close_faults c f high low len rest message i c' callback some_len copied ends called same
        no_gi =
      peer_close_run c f high low len rest message callback some_len copied
      ∙ rw called (ground arith)
