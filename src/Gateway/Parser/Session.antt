-- ===== src/Gateway/Parser/Session.antt =====
-- HELLO, and the session that is kept for resuming.
use libdiscord.Prelude.{
  ℕ, ◌≡◌, refl, ap, ◌∙◌, pos, Bool, true, false, Option, none, some, Bytes, text, arith, to_u32,
  length, fault, done,
}
use libdiscord.Jansson.{lookup, object_get_opt}
use libdiscord.Jansson.Fields.{Distinct, field_of}
use libdiscord.Ring.{RingLaws}
use libdiscord.Payload
use libdiscord.Payload.{create_payload, opcode_value}
use libdiscord.Identify.{Identify, unpack_identify}
use libdiscord.Context.{Context, Platform}
use libdiscord.Gateway.Heartbeat.{dumps_opt}
use libdiscord.Gateway.Parser.{
  Parts, opcode_of, interval_of, on_hello, on_opcode, finish_scan, payload_parser,
}
use libdiscord.Gateway.Parser.Scan.{IsKnown, found, scan-found}

module _ {J R : Type 0} (env : Platform J R) where
  -- A payload that jansson reads, with the opcode `n`: its keys are distinct and known.
  pub record IsPayload (bytes : Bytes) (v o : J) (n : ℕ) : Type 0 where
    pub loaded : env.jansson.loads bytes ≡ some v
    pub distinct : Distinct env.jansson (env.jansson.entries v)
    pub known : IsKnown env (env.jansson.entries v)
    pub op : lookup env.jansson (text "op") (env.jansson.entries v) ≡ some o
    pub number : to_u32 (env.jansson.integer_value o) ≡ n

  -- The context once the sequence number of a payload is stored.
  abbrev pub scanned : Context R → J → Context R
  scanned c v = (found env c (λ key. lookup env.jansson key (env.jansson.entries v))).0

  abbrev pub part : J → Bytes → Option J
  part v key = lookup env.jansson key (env.jansson.entries v)

  abbrev parts : ℕ → J → Parts J
  parts n v = record { opcode = n; data_part = part v (text "d"); type_part = part v (text "t") }

  -- HELLO while a session is kept.
  pub hello_faults :
      (m : Bool) (now : ℕ) (c : Context R) (d : Option J) (s : Bytes)
      → c.gateway_session_id ≡ some s
      → on_hello env m now c d ≡ fault
  unfolding on_hello
  hello_faults m now c d s session = ground arith

  field_of_part : (o : Option J) → field_of env.jansson (λ v _. some v) none o ≡ o
  field_of_part none = refl
  field_of_part (some v) = refl

  -- The parser on a payload: the sequence number is stored, then the `switch` is on the opcode.
  parser_at :
      (m : Bool) (now : ℕ) (c : Context R) (bytes : Bytes) (v o : J) (n : ℕ)
      → IsPayload bytes v o n
      → payload_parser env m now c bytes
        ≡ on_opcode env m now (opcode_of n) (scanned c v) (parts n v)
  unfolding payload_parser
  parser_at m now c bytes v o n p = rw p.loaded (
      ap (finish_scan env m now) (scan-found env c (env.jansson.entries v) p.distinct p.known)
      ∙ rw (p.op, p.number, field_of_part (part v (text "d")), field_of_part (part v (text "t"))))

  -- A HELLO that comes while a session is kept, so that the code tries to resume it, always reaches
  -- undefined behaviour: the structure that the payload is built from was not initialised.
  pub hello_with_session_faults :
      (m : Bool) (now : ℕ) (c : Context R) (bytes : Bytes) (v o : J) (session : Bytes)
      → IsPayload bytes v o 10
      → c.gateway_session_id ≡ some session
      → payload_parser env m now c bytes ≡ fault
  unfolding opcode_of on_opcode
  hello_with_session_faults m now c bytes v o session p kept =
      parser_at m now c bytes v o 10 p
      ∙ hello_faults m now (scanned c v) (part v (text "d")) session kept

  -- An INVALIDATE_SESSION payload forgets the session and the sequence number, also one that the payload
  -- itself holds, and changes nothing else.
  pub invalidate_session_lem :
      (m : Bool) (now : ℕ) (c : Context R) (bytes : Bytes) (v o : J)
      → IsPayload bytes v o 9
      → payload_parser env m now c bytes
        ≡ done (pos 0, record c { gateway_session_id = none; last_seq = pos 0 })
  unfolding opcode_of on_opcode
  invalidate_session_lem m now c bytes v o p = parser_at m now c bytes v o 9 p

  -- The context that HELLO's interval is stored in.
  abbrev pub with_interval : Context R → J → Context R
  with_interval c v = record (scanned c v) {
    heartbeat_interval =
        interval_of env
          (object_get_opt env.jansson (part v (text "d")) (text "heartbeat_interval"));
  }

  -- The structure that IDENTIFY is built from, and the payload around the built object.
  abbrev pub identify_of : Context R → Identify
  identify_of c = record {
    token = c.bot_token;
    properties = some (record { os = c.os; browser = c.browser; device = c.device });
    compress = false;
    large_threshold = pos 250;
    shard_id = pos 0;
    shard_count = c.shards;
    status_update = c.init_presence;
  }

  abbrev pub identify_payload : J → Option J
  identify_payload object =
      create_payload env.jansson (env.jansson.integer (pos (opcode_value Payload.identify)))
        (some object) none none

  -- With a full ring and no session, HELLO still returns 0 and starts the heartbeats, though IDENTIFY is
  -- not queued: the ring is as it was.
  pub hello_full_drops_identify :
      (laws : RingLaws env.ring) (now : ℕ) (c : Context R) (bytes : Bytes) (v o : J) (object : J)
      (str : Bytes) (r : R)
      → IsPayload bytes v o 10
      → c.gateway_session_id ≡ none
      → unpack_identify env.jansson (identify_of c) ≡ done (some object)
      → dumps_opt env (identify_payload object) ≡ some str
      → c.gateway_ring ≡ some r
      → env.ring.count_free r ≡ 0
      → payload_parser env true now c bytes
        ≡ done (pos 0, record (with_interval c v) { gateway_ring = some r; last_hb = now })
  unfolding opcode_of on_opcode on_hello
  hello_full_drops_identify laws now c bytes v o object str r p fresh built printed ring full =
      parser_at true now c bytes v o 10 p
      ∙ rw (
        fresh,
        built,
        printed,
        ring,
        laws.insert_full r (record { payload = str; len = length str }) full,
      )
