-- ===== src/Gateway/Parser.antt =====
-- The gateway's payloads: `ld_gateway_payload_objectparser`, `ld_set_identify`,
-- `ld_json_save_resume` and `ld_gateway_payload_parser` (lib/libdiscord.c, lib/json.c).
pub mod Scan
pub mod Session
use libdiscord.Prelude.{
  ℕ, ◌+◌, ◌-◌, ℤ, pos, negsuc, ◌+ℤ◌, eqb_ℤ, to_u32, to_int, Bool, true, false, Option, none, some,
  List, [], ◌∷◌, Bytes, text, bytes_eq, ◌==◌, if◌then◌else◌, length, Exec, fault, done, deref,
  ◌>>=◌,
}
use libdiscord.Status.{code, ok, alloc_err, incomplete_args_err, json_missing_required_err}
use libdiscord.Jansson.{Jansson, object_get_opt}
use libdiscord.Payload
use libdiscord.Payload.{Opcode, opcode_value, Resume, create_payload}
use libdiscord.Identify.{Identify, ConnectionProperties, unpack_identify}
use libdiscord.Context.{Context, GatewayPayload, Platform}
use libdiscord.Gateway.Dispatch.{Result, dispatch_parser}
use libdiscord.Gateway.Heartbeat.{dumps_opt}

-- `enum ld_gateway_payloadtype`
pub data PayloadType : Type 0 where
  op d t s unknown : PayloadType

-- `ld_gateway_payload_objectparser`
unfoldable pub payload_objectparser : Bytes → PayloadType
payload_objectparser key =
    if bytes_eq key (text "op")
    then op
    else if bytes_eq key (text "d")
    then d
    else if bytes_eq key (text "t")
    then t
    else if bytes_eq key (text "s")
    then s
    else unknown

-- The case of the `switch` that an opcode's value goes to: an unlisted value goes to `default`, which
-- does what `unknown` does.
unfoldable pub opcode_of : ℕ → Opcode
opcode_of n =
    if n == 0
    then Payload.dispatch
    else if n == 1
    then Payload.heartbeat
    else if n == 2
    then Payload.identify
    else if n == 3
    then Payload.presence
    else if n == 4
    then Payload.voice_state
    else if n == 5
    then Payload.voice_ping
    else if n == 6
    then Payload.resume
    else if n == 7
    then Payload.reconnect
    else if n == 8
    then Payload.request_members
    else if n == 9
    then Payload.invalidate_session
    else if n == 10
    then Payload.hello
    else if n == 11
    then Payload.heartbeat_ack
    else if n == 12
    then Payload.guild_sync
    else Payload.unknown

-- `ld_json_save_resume`: whether `out` is not null, and the structure. On the path that reaches
-- `ld_json_dump_resume` the `json_t` that it dumps is uninitialised, since `ld_json_unpack_resume`
-- writes nothing.
dump_parts : Option Bytes → Option Bytes → Exec ℤ
dump_parts none session = done (code json_missing_required_err)
dump_parts (some token) none = done (code json_missing_required_err)
dump_parts (some token) (some session) = fault

unfoldable pub save_resume : Bool → Option Resume → Exec ℤ
unfolding dump_parts
save_resume out none = done (code ok)
save_resume false (some r) = done (code incomplete_args_err)
save_resume true (some r) = dump_parts r.token r.session_id

-- `ld_set_identify`, with whether its `malloc` succeeds: `none` is an `identify` left uninitialised.
unfoldable pub set_identify : {R : Type 0} → Bool → Context R → ℤ × Option Identify
set_identify false c = (code alloc_err, none)
set_identify true c = (
  code ok,
  some (record {
    properties = some (record { device = c.device; os = c.os; browser = c.browser });
    token = c.bot_token;
    compress = false;
    large_threshold = pos 250;
    shard_id = pos 0;
    shard_count = c.shards;
    status_update = c.init_presence;
  }),
)

-- The local variables of `ld_gateway_payload_parser` after its loop: the opcode, and the values of
-- `d` (NULL at first) and `t` (uninitialised at first).
pub record Parts (J : Type 0) : Type 0 where
  pub opcode : ℕ
  pub data_part : Option J
  pub type_part : Option J

module _ {J R : Type 0} (env : Platform J R) where
  -- One round of the loop: `none` is the early return for an unknown key.
  unfoldable pub scan_entry : PayloadType → J → Context R → Parts J → Context R × Option (Parts J)
  scan_entry op value c p =
      (c, some (record p { opcode = to_u32 (env.jansson.integer_value value) }))
  scan_entry d value c p = (c, some (record p { data_part = some value }))
  scan_entry t value c p = (c, some (record p { type_part = some value }))
  scan_entry s value c p =
      (record c { last_seq = to_int (env.jansson.integer_value value) }, some p)
  scan_entry unknown value c p = (c, none)

  -- The loop, from the parts found so far.
  unfoldable pub scan :
      List (Bytes × J) → Context R × Option (Parts J) → Context R × Option (Parts J)
  unfolding scan_entry payload_objectparser
  scan es (c, none) = (c, none)
  scan [] (c, some p) = (c, some p)
  scan ((key, value) ∷ es) (c, some p) = scan es (scan_entry (payload_objectparser key) value c p)

  -- The interval in a HELLO: 41250 if it is missing or 0.
  unfoldable pub interval_of : Option J → ℕ
  interval_of none = 41250
  interval_of (some v) =
      let n = env.jansson.integer_value v in if eqb_ℤ n (pos 0) then 41250 else to_u32 n

  -- The structure that IDENTIFY is built from: `none` is one left uninitialised, as it is where the
  -- code tries to resume a session.
  unfoldable pub ident_of : Bool → Option Bytes → Context R → Exec (Option Identify)
  unfolding save_resume set_identify
  ident_of malloc_properties none c = done (set_identify malloc_properties c).1
  ident_of malloc_properties (some session) c = do
    ret ←
        save_resume true
          (some (record { session_id = some session; token = c.bot_token; seq = c.last_seq }))
    done none

  -- IDENTIFY is created, queued with no look at the result of the insertion, and the timer starts.
  unfoldable pub send_identify : Context R → ℕ → Option J → Exec (Result env)
  unfolding dumps_opt
  send_identify c now none = done (pos 1, c)
  send_identify c now (some ident) = do
    let payload =
        create_payload env.jansson (env.jansson.integer (pos (opcode_value Payload.identify)))
          (some ident) none none
    str ← deref (dumps_opt env payload)
    ring ← deref c.gateway_ring
    let (n, ring') = env.ring.insert ring (record { payload = str; len = length str })
    done (pos 0, record c { gateway_ring = some ring'; last_hb = now })

  -- `case LD_GATEWAY_OPCODE_HELLO`
  unfoldable pub on_hello : Bool → ℕ → Context R → Option J → Exec (Result env)
  unfolding interval_of ident_of send_identify
  on_hello malloc_properties now c data_part = do
    let c1 = record c {
      heartbeat_interval =
          interval_of (object_get_opt env.jansson data_part (text "heartbeat_interval"));
    }
    found ← ident_of malloc_properties c1.gateway_session_id c1
    ident ← deref found
    object ← unpack_identify env.jansson ident
    send_identify c1 now object

  -- The `switch` on the opcode.
  unfoldable pub on_opcode : Bool → ℕ → Opcode → Context R → Parts J → Exec (Result env)
  unfolding on_hello
  on_opcode m now Payload.dispatch c p = dispatch_parser env c p.type_part p.data_part
  on_opcode m now Payload.invalidate_session c p =
      done (pos 0, record c { gateway_session_id = none; last_seq = pos 0 })
  on_opcode m now Payload.hello c p = on_hello m now c p.data_part
  on_opcode m now Payload.heartbeat_ack c p =
      done (pos 0, record c { hb_count = c.hb_count +ℤ negsuc 0 })
  on_opcode m now Payload.unknown c p = done (pos 1, c)
  on_opcode m now _ c p = done (pos 0, c)

  -- The return for an unknown key, or the `switch`.
  unfoldable pub finish_scan : Bool → ℕ → Context R × Option (Parts J) → Exec (Result env)
  unfolding on_opcode opcode_of
  finish_scan m now (c, none) = done (pos 1, c)
  finish_scan m now (c, some p) = on_opcode m now (opcode_of p.opcode) c p

  abbrev pub no_parts : Parts J
  no_parts = record { opcode = 999; data_part = none; type_part = none }

  unfoldable pub parse_loaded : Bool → ℕ → Context R → Option J → Exec (Result env)
  unfolding finish_scan scan
  parse_loaded m now c none = done (pos 1, c)
  parse_loaded m now c (some payload) =
      finish_scan m now (scan (env.jansson.entries payload) (c, some no_parts))

  -- `ld_gateway_payload_parser`. `malloc_properties` says whether the `malloc` in `ld_set_identify`
  -- succeeds; `now` is the reading of the clock.
  unfoldable pub payload_parser : Bool → ℕ → Context R → Bytes → Exec (Result env)
  unfolding parse_loaded
  payload_parser malloc_properties now c bytes =
      parse_loaded malloc_properties now c (env.jansson.loads bytes)
