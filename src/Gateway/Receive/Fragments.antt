-- ===== src/Gateway/Receive/Fragments.antt =====
-- Reassembly: a message in fragments is parsed once, as the concatenation of its fragments.
use mathlib.Core.List.{append_assoc, flatten}
use libdiscord.Prelude.{
  ℕ, ◌≡◌, ◌≢◌, refl, sym, ap, ◌∙◌, ℤ, pos, Bool, true, false, Option, none, some, List, [], ◌∷◌,
  ◌++◌, Bytes, length, length-append, take, take-length, map, arith, Exec, fault, done, ◌>>=◌, All,
}
use libdiscord.Stdlib.{strncpy}
use libdiscord.Context.{Context, Platform}
use libdiscord.Gateway.Dispatch.{Result}
use libdiscord.Gateway.Parser.{payload_parser}
use libdiscord.Gateway.Receive.{buffered, append_fragment, drop_buffer, receive}

-- No byte is NUL, as in any JSON text.
abbrev pub HasNoNul : Bytes → Type 0
HasNoNul = All (λ b. b ≢ 0)

strncpy_text : (s : Bytes) → HasNoNul s → strncpy s ≡ s
unfolding strncpy
strncpy_text [] h = refl
strncpy_text (b ∷ s) h = ground (arith, strncpy_text s h.1)

length-zeros : (s : Bytes) → length {A = ℕ} (map (λ _. 0) s) ≡ length s
length-zeros [] = refl
length-zeros (b ∷ s) = omega (arith, length-zeros s)

length-strncpy : (s : Bytes) → length (strncpy s) ≡ length s
unfolding strncpy
length-strncpy [] = refl
length-strncpy (b ∷ s) = ground (arith, length-strncpy s, length-zeros s)

-- The buffer is as long as the length beside it says, and a null buffer has length 0.
abbrev pub length_opt : Option Bytes → ℕ
length_opt none = 0
length_opt (some b) = length b

abbrev pub IsBuffered : {R : Type 0} → Context R → Type 0
IsBuffered c = length_opt c.gateway_rx_buffer ≡ c.gateway_rx_buffer_len

module _ {J R : Type 0} (env : Platform J R) where
  dropped-IsBuffered :
      (m : Exec (Result env)) (i : ℤ) (c' : Context R)
      → (m >>= (λ r. done (drop_buffer env r))) ≡ done (i, c')
      → IsBuffered c'
  dropped-IsBuffered fault i c' e = cc
  dropped-IsBuffered (done (j, c)) i c' e = ground arith

  buffered_text : (c : Context R) → IsBuffered c → length (buffered env c) ≡ c.gateway_rx_buffer_len
  unfolding buffered
  buffered_text c v = by_buffer c.gateway_rx_buffer c.gateway_rx_buffer_len v
    where
      by_buffer :
          (b : Option Bytes) (n : ℕ)
          → length_opt b ≡ n
          → length {A = ℕ} (elim b [ none ↦ [] | some b ↦ take n b ]) ≡ n
      by_buffer none n e = e
      by_buffer (some b) n e = rw (← e) (ap length (take-length b))

  append_fragment-IsBuffered :
      (c : Context R) (bytes : Bytes) → IsBuffered c → IsBuffered (append_fragment env c bytes)
  unfolding append_fragment
  append_fragment-IsBuffered c bytes v =
      length-append (buffered env c) (strncpy bytes)
      ∙ omega (arith, buffered_text c v, length-strncpy bytes)

  -- Whatever fragment comes, and whatever the parser and the user do with the context, the buffer and
  -- its length agree afterwards.
  pub receive-IsBuffered :
      (m : Bool) (now : ℕ) (c : Context R) (bytes : Bytes) (first final : Bool) (i : ℤ)
      (c' : Context R)
      → IsBuffered c
      → receive env m now c bytes first final ≡ done (i, c')
      → IsBuffered c'
  unfolding receive
  receive-IsBuffered m now c bytes first final i c' v e = ground (
    arith,
    dropped-IsBuffered (payload_parser env m now c bytes) i c',
    dropped-IsBuffered
        (payload_parser env m now (append_fragment env c bytes)
          (buffered env (append_fragment env c bytes)))
        i c',
    append_fragment-IsBuffered c bytes v,
    length-strncpy bytes,
  )

  -- A context whose buffer holds exactly the given bytes.
  abbrev pub with_buffer : Context R → Bytes → Context R
  with_buffer c b = record c { gateway_rx_buffer = some b; gateway_rx_buffer_len = length b }

  append_text :
      (c : Context R) (b f : Bytes)
      → HasNoNul f
      → append_fragment env (with_buffer c b) f ≡ with_buffer c (b ++ f)
  unfolding append_fragment buffered
  append_text c b f h =
      rw (strncpy_text f h, take-length b)
        (λ i. record c {
          gateway_rx_buffer = some (b ++ f);
          gateway_rx_buffer_len = sym (length-append b f) i;
        })

  buffered-with_buffer : (c : Context R) (b : Bytes) → buffered env (with_buffer c b) ≡ b
  unfolding buffered
  buffered-with_buffer c b = take-length b

  module _ (m : Bool) (now : ℕ) where
    receive_first :
        (c : Context R) (f : Bytes)
        → HasNoNul f
        → receive env m now c f true false ≡ done (pos 0, with_buffer c f)
    unfolding receive
    receive_first c f h = rw (strncpy_text f h) (ground arith)

    receive_middle :
        (c : Context R) (b f : Bytes)
        → HasNoNul f
        → receive env m now (with_buffer c b) f false false ≡ done (pos 0, with_buffer c (b ++ f))
    unfolding receive
    receive_middle c b f h = ap (λ c'. done (pos 0, c')) (append_text c b f h)

    receive_last :
        (c : Context R) (b f : Bytes)
        → HasNoNul f
        → receive env m now (with_buffer c b) f false true ≡ (
            payload_parser env m now (with_buffer c (b ++ f)) (b ++ f)
            >>= (λ r. done (drop_buffer env r)))
    unfolding receive
    receive_last c b f h =
        ap (λ c'. payload_parser env m now c' (buffered env c') >>= (λ r. done (drop_buffer env r)))
          (append_text c b f h)
        ∙ ap
            (λ s.
              payload_parser env m now (with_buffer c (b ++ f)) s
              >>= (λ r. done (drop_buffer env r)))
            (buffered-with_buffer c (b ++ f))

    -- The fragments after the first: those in the middle, and the final one.
    receive_rest : Context R → List Bytes → Bytes → Exec (Result env)
    receive_rest c [] last = receive env m now c last false true
    receive_rest c (f ∷ fs) last =
        receive env m now c f false false >>= (λ r. receive_rest r.1 fs last)

    -- The calls for a message that comes in two or more fragments.
    pub receive_message : Context R → Bytes → List Bytes → Bytes → Exec (Result env)
    unfolding receive_rest
    receive_message c first middle last =
        receive env m now c first true false >>= (λ r. receive_rest r.1 middle last)

    receive_rest-join :
        (c : Context R) (b : Bytes) (fs : List Bytes) (last : Bytes)
        → All HasNoNul fs
        → HasNoNul last
        → receive_rest (with_buffer c b) fs last ≡ (
            payload_parser env m now
              (with_buffer c (b ++ (flatten fs ++ last)))
              (b ++ (flatten fs ++ last))
            >>= (λ r. done (drop_buffer env r)))
    unfolding receive_rest flatten
    receive_rest-join c b [] last hs h = receive_last c b last h
    receive_rest-join c b (f ∷ fs) last hs h = rw (receive_middle c b f hs.0) (
        receive_rest-join c (b ++ f) fs last hs.1 h
        ∙ rw (append_assoc b f (flatten fs ++ last), append_assoc f (flatten fs) last))

    -- A message in two or more fragments without NUL bytes is parsed once, after its final fragment, as
    -- the concatenation of the fragments in the order in which they came; the parser's result is the
    -- result, and the buffer is empty again.
    pub receive_message_join :
        (c : Context R) (first : Bytes) (middle : List Bytes) (last : Bytes)
        → HasNoNul first
        → All HasNoNul middle
        → HasNoNul last
        → let whole = first ++ (flatten middle ++ last) in
          receive_message c first middle last ≡ (
            payload_parser env m now (with_buffer c whole) whole
            >>= (λ r. done (drop_buffer env r)))
    unfolding receive_message
    receive_message_join c first middle last h hs k =
        rw (receive_first c first h) (receive_rest-join c first middle last hs k)
