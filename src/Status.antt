-- ===== src/Status.antt =====
-- lib/status.h and the older codes of lib/libdiscord.h (`enum ldecode`). A status is an `int`, since
-- the values of the user's callback are returned as statuses too.
use libdiscord.Prelude.{ℤ, pos, Bool, eqb_ℤ}

-- `enum ld_status_enum`
pub data Status : Type 0 where
  ok error memory_err alloc_err incomplete_args_err : Status
  connection_err curl_err : Status
  websocket_ringbuffer_err websocket_ringbuffer_full_err : Status
  websocket_cantfit_payload_err websocket_cantfit_heartbeat_err : Status
  websocket_heartbeat_acknowledegement_missed websocket_init_err : Status
  json_err json_decoding_err json_encoding_err json_dump_err json_invalid_err : Status
  json_cantfindkey_err json_cantfindvalue_err json_missing_required_err : Status
  json_gateway_dispatch_type_err token_missing_err : Status

-- The values of the enumerators; `json_invalid_err` is one above `json_dump_err`.
abbrev pub code : Status → ℤ
code ok = pos 0
code error = pos 1
code memory_err = pos 2
code alloc_err = pos 3
code incomplete_args_err = pos 4
code connection_err = pos 100
code curl_err = pos 101
code websocket_ringbuffer_err = pos 200
code websocket_ringbuffer_full_err = pos 201
code websocket_cantfit_payload_err = pos 210
code websocket_cantfit_heartbeat_err = pos 211
code websocket_heartbeat_acknowledegement_missed = pos 220
code websocket_init_err = pos 230
code json_err = pos 300
code json_decoding_err = pos 301
code json_encoding_err = pos 302
code json_dump_err = pos 303
code json_invalid_err = pos 304
code json_cantfindkey_err = pos 310
code json_cantfindvalue_err = pos 311
code json_missing_required_err = pos 312
code json_gateway_dispatch_type_err = pos 320
code token_missing_err = pos 900

-- `ret == LDS_OK`
abbrev pub is_ok : ℤ → Bool
is_ok s = eqb_ℤ s (pos 0)

-- `LDE_OK`, `LDE_JSON` and `LDE_MISSING_PARAM` of `enum ldecode`.
abbrev pub lde_ok : ℤ
lde_ok = pos 0

abbrev pub lde_json : ℤ
lde_json = pos 2

abbrev pub lde_missing_param : ℤ
lde_missing_param = pos 5
