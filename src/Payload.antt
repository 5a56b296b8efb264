-- ===== src/Payload.antt =====
-- Gateway payloads: creation, validity, and the RESUME object (lib/json.h, lib/json.c).
pub mod Create
use libdiscord.Prelude.{
  ℕ, ℤ, pos, Bool, true, false, not, ◌&&◌, ◌||◌, Option, none, some, Bytes, text, if◌then◌else◌,
  ◌==◌, is_some,
}
use libdiscord.Jansson.{Jansson}
use libdiscord.Status.{
  Status, code, ok, incomplete_args_err, json_missing_required_err, json_dump_err, json_invalid_err,
  is_ok,
}

-- `enum ld_gateway_opcode`
pub data Opcode : Type 0 where
  unknown dispatch heartbeat identify presence voice_state voice_ping resume reconnect : Opcode
  request_members invalidate_session hello heartbeat_ack guild_sync : Opcode

abbrev pub opcode_value : Opcode → ℕ
opcode_value unknown = 999
opcode_value dispatch = 0
opcode_value heartbeat = 1
opcode_value identify = 2
opcode_value presence = 3
opcode_value voice_state = 4
opcode_value voice_ping = 5
opcode_value resume = 6
opcode_value reconnect = 7
opcode_value request_members = 8
opcode_value invalidate_session = 9
opcode_value hello = 10
opcode_value heartbeat_ack = 11
opcode_value guild_sync = 12

-- `enum ld_dispatch_event`
pub data DispatchEvent : Type 0 where
  dispatch_unknown presences_replace : DispatchEvent

-- `struct ld_json_websocket_payload`; `d` is only tested for NULL.
pub record WebsocketPayload : Type 0 where
  pub op : Opcode
  pub d : Option ℕ
  pub s : ℤ
  pub t : DispatchEvent

abbrev is_unknown : Opcode → Bool
is_unknown unknown = true
is_unknown _ = false

abbrev is_dispatch : Opcode → Bool
is_dispatch dispatch = true
is_dispatch _ = false

abbrev is_unknown_event : DispatchEvent → Bool
is_unknown_event dispatch_unknown = true
is_unknown_event presences_replace = false

-- `ld_json_payload_valid`; a negative sequence number is only logged.
unfoldable pub payload_valid : WebsocketPayload → ℤ
payload_valid p =
    if is_unknown p.op
    then code json_missing_required_err
    else if not (is_some p.d)
    then code json_missing_required_err
    else if is_dispatch p.op && is_unknown_event p.t
    then code json_missing_required_err
    else code ok

-- `ld_json_unpack_payload`: it validates the payload, and writes nothing.
unfoldable pub unpack_payload : Option WebsocketPayload → ℤ
unfolding payload_valid
unpack_payload none = code ok
unpack_payload (some p) = if is_ok (payload_valid p) then code ok else code json_invalid_err

-- `struct ld_json_resume`
pub record Resume : Type 0 where
  pub token : Option Bytes
  pub session_id : Option Bytes
  pub seq : ℤ

module _ {J : Type 0} (j : Jansson J) where
  -- A field that is set if its value is not NULL; `none` is the return of NULL after an error.
  set_optional : Option J → Bytes → Option J → Option J
  set_optional none key value = none
  set_optional (some payload) key none = some payload
  set_optional (some payload) key (some v) = j.object_set payload key v

  -- `ld_json_create_payload`
  unfoldable pub create_payload : J → Option J → Option J → Option J → Option J
  unfolding set_optional
  create_payload op d t s =
      let payload = j.object_set j.object (text "op") op in
      let payload = set_optional payload (text "d") d in
      let payload = set_optional payload (text "t") t in set_optional payload (text "s") s

  -- `_ld_json_dump_all`: the status, and what is written through `out` (a null `out` is `false`).
  unfoldable pub dump_all : Bool → J → ℤ × Option (Option Bytes)
  dump_all false value = (code incomplete_args_err, none)
  dump_all true value = elim (j.dumps value) [
    | none ↦ (code json_dump_err, some none)
    | some s ↦ (code ok, some (some s))
  ]
