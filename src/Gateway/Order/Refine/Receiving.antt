-- ===== src/Gateway/Order/Refine/Receiving.antt =====
-- The parser of payloads and the receive callback as steps of the queue.
use libdiscord.Prelude.{
  ℕ, ◌≡◌, refl, ◌∙◌, Bool, not, ◌&&◌, Option, none, some, List, [], ◌∷◌, Bytes, length, Exec, fault,
  done, Ensures, Ensures->>=, Ensures->>=-any, Ensures-deref, Ensures-if, ◌>>=◌, deref, is_some,
}
use libdiscord.Ring.{RingLaws}
use libdiscord.Identify.{unpack_identify}
use libdiscord.Payload.{Opcode}
use libdiscord.Payload
use libdiscord.Context.{Context, Platform}
use libdiscord.Gateway.Dispatch.{Result}
use libdiscord.Gateway.Parser
use libdiscord.Gateway.Parser.{
  Parts, PayloadType, scan_entry, scan, send_identify, ident_of, on_hello, on_opcode, finish_scan,
  parse_loaded, payload_parser, payload_objectparser, opcode_of, no_parts,
}
use libdiscord.Gateway.Receive.{receive, drop_buffer}
use libdiscord.Gateway.Order.{here, Steps-trans}
use libdiscord.Gateway.Order.Refine.{
  Grows, Same, KeepsRing, same_ring-Grows, insert-Grows, dispatch_parser-Same,
}

module _ {J R : Type 0} (env : Platform J R) (laws : RingLaws env.ring) where
  -- What a run on a context does to the queue.
  abbrev pub GrowsBy : List Bytes → Context R → Result env → Type 0
  GrowsBy sent c r = Grows env laws sent c r.1

  pub Grows-trans :
      (sent : List Bytes) (c c' : Context R) (m : Exec (Result env))
      → Grows env laws sent c c'
      → Ensures (GrowsBy sent c') m
      → Ensures (GrowsBy sent c) m
  Grows-trans sent c c' fault a h = tt
  Grows-trans sent c c' (done r) a h = Steps-trans a h

  pub of_Same :
      (sent : List Bytes) (c : Context R) (m : Exec (Result env))
      → Ensures (Same env c) m
      → Ensures (GrowsBy sent c) m
  of_Same sent c fault h = tt
  of_Same sent c (done r) h = same_ring-Grows env laws sent c r.1 h

  entry-Same :
      (k : PayloadType) (v : J) (c : Context R) (p : Parts J)
      → (scan_entry env k v c p).0.gateway_ring ≡ c.gateway_ring
  unfolding scan_entry
  entry-Same Parser.op v c p = refl
  entry-Same Parser.d v c p = refl
  entry-Same Parser.t v c p = refl
  entry-Same Parser.s v c p = refl
  entry-Same Parser.unknown v c p = refl

  scan-Same :
      (es : List (Bytes × J)) (x : Context R × Option (Parts J))
      → (scan env es x).0.gateway_ring ≡ x.0.gateway_ring
  unfolding scan
  scan-Same es (c, none) = refl
  scan-Same [] (c, some p) = refl
  scan-Same ((key, value) ∷ es) (c, some p) =
      scan-Same es (scan_entry env (payload_objectparser key) value c p)
      ∙ entry-Same (payload_objectparser key) value c p

  send_identify-Grows :
      (sent : List Bytes) (c : Context R) (now : ℕ) (ident : Option J)
      → Ensures (GrowsBy sent c) (send_identify env c now ident)
  unfolding send_identify
  send_identify-Grows sent c now none = here
  send_identify-Grows sent c now (some ident) = Ensures->>=-any (GrowsBy sent c) _ _ (λ str.
      Ensures-deref (GrowsBy sent c) c.gateway_ring _ (λ r ring.
        insert-Grows env laws sent c r (record { payload = str; len = length str }) ring))

  on_hello-Grows :
      (sent : List Bytes) (m : Bool) (now : ℕ) (c : Context R) (d : Option J)
      → Ensures (GrowsBy sent c) (on_hello env m now c d)
  unfolding on_hello
  on_hello-Grows sent m now c d = Ensures->>=-any (GrowsBy sent c) _ _ (λ found.
      Ensures->>=-any (GrowsBy sent c) (deref found) _ (λ ident.
        Ensures->>=-any (GrowsBy sent c) (unpack_identify env.jansson ident) _
          (λ object. send_identify-Grows sent _ now object)))

  module _ (keeps : KeepsRing env) where
    on_opcode-Grows :
        (sent : List Bytes) (m : Bool) (now : ℕ) (op : Opcode) (c : Context R) (p : Parts J)
        → Ensures (GrowsBy sent c) (on_opcode env m now op c p)
    unfolding on_opcode
    on_opcode-Grows sent m now Payload.dispatch c p =
        of_Same sent c _ (dispatch_parser-Same env keeps c p.type_part p.data_part)
    on_opcode-Grows sent m now Payload.hello c p = on_hello-Grows sent m now c p.data_part
    on_opcode-Grows sent m now Payload.invalidate_session c p = here
    on_opcode-Grows sent m now Payload.heartbeat_ack c p = here
    on_opcode-Grows sent m now Payload.unknown c p = here
    on_opcode-Grows sent m now _ c p = here

    finish_scan-Grows :
        (sent : List Bytes) (m : Bool) (now : ℕ) (x : Context R × Option (Parts J))
        → Ensures (GrowsBy sent x.0) (finish_scan env m now x)
    unfolding finish_scan
    finish_scan-Grows sent m now (c, none) = here
    finish_scan-Grows sent m now (c, some p) = on_opcode-Grows sent m now (opcode_of p.opcode) c p

    parse_loaded-Grows :
        (sent : List Bytes) (m : Bool) (now : ℕ) (c : Context R) (v : Option J)
        → Ensures (GrowsBy sent c) (parse_loaded env m now c v)
    unfolding parse_loaded
    parse_loaded-Grows sent m now c none = here
    parse_loaded-Grows sent m now c (some v) =
        let x = scan env (env.jansson.entries v) (c, some (no_parts env)) in
        Grows-trans sent c x.0 (finish_scan env m now x)
          (same_ring-Grows env laws sent c x.0
            (scan-Same (env.jansson.entries v) (c, some (no_parts env))))
          (finish_scan-Grows sent m now x)

    payload_parser-Grows :
        (sent : List Bytes) (m : Bool) (now : ℕ) (c : Context R) (bytes : Bytes)
        → Ensures (GrowsBy sent c) (payload_parser env m now c bytes)
    unfolding payload_parser
    payload_parser-Grows sent m now c bytes =
        parse_loaded-Grows sent m now c (env.jansson.loads bytes)

    -- The parser between a change of the buffer and its removal.
    dropped-Grows :
        (sent : List Bytes) (m : Bool) (now : ℕ) (c c' : Context R) (bytes : Bytes)
        → c'.gateway_ring ≡ c.gateway_ring
        → Ensures
            (GrowsBy sent c)
            (payload_parser env m now c' bytes >>= (λ r. done (drop_buffer env r)))
    dropped-Grows sent m now c c' bytes same =
        Ensures->>= (GrowsBy sent c') (GrowsBy sent c) (payload_parser env m now c' bytes) _
          (payload_parser-Grows sent m now c' bytes)
          (λ r grows. Steps-trans (same_ring-Grows env laws sent c c' same) grows)

    pub receive-Grows :
        (sent : List Bytes) (m : Bool) (now : ℕ) (c : Context R) (bytes : Bytes)
        (first final : Bool)
        → Ensures (GrowsBy sent c) (receive env m now c bytes first final)
    unfolding receive
    receive-Grows sent m now c bytes first final =
        let P = GrowsBy sent c in
        Ensures-if P (not (is_some c.gateway_rx_buffer) && final) _ _
          (dropped-Grows sent m now c c bytes refl)
          (Ensures-if P first _ _ here (
            Ensures-if P (final && is_some c.gateway_rx_buffer) _ _
              (dropped-Grows sent m now c _ _ refl) here))
