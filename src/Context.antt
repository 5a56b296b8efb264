-- ===== src/Context.antt =====
-- `struct ld_context` and its companions (lib/libdiscord.h), and what the functions of
-- lib/libdiscord.c take from outside the repository.
use libdiscord.Prelude.{ℕ, ℤ, Bool, Option, List, Bytes, Exec}
use libdiscord.Jansson.{Jansson}
use libdiscord.Ring.{LwsRing}
use libdiscord.Rest.Curl.{EasyOptions}
use libdiscord.User.{User}
use libdiscord.Identify.{StatusUpdate}

-- `struct ld_gateway_payload`
pub record GatewayPayload : Type 0 where
  pub payload : Bytes
  pub len : ℕ

-- A pointer that is only tested and passed on.
abbrev pub Handle : Type 0
Handle = ℕ

-- `struct ld_gi`, one gateway connection, with its pointers as they are passed on.
pub record GatewayInterface : Type 0 where
  pub parent_context : Option Handle
  pub user : Option Handle
  pub shardnum : ℤ
  pub lws_wsi : Option Handle
  pub hb_interval : ℕ  -- unsigned int
  pub last_seq : ℤ  -- int
  pub hb_count : ℤ  -- int
  pub tx_ringbuffer : Option Handle
  pub close_code : ℕ  -- unsigned int
  pub session_valid : Bool

-- `struct ld_context`, over the type `R` of rings. `none` is a null pointer; the current user may be
-- a block that is allocated and not filled, `some none`.
pub record Context (R : Type 0) : Type 0 where
  pub bot_token : Option Bytes
  pub user_data : Option Handle
  pub log_level : ℕ
  pub gateway_url : Option Bytes
  pub gateway_bot_url : Option Bytes
  pub shards : ℤ
  pub curl_multi_handle : Option Handle
  pub curl_handle : Option EasyOptions  -- the handle, by the options that are set on it
  pub lws_context : Option Handle
  pub lws_wsi : Option Handle
  pub user_callback : Option Handle
  pub heartbeat_interval : ℕ  -- unsigned int
  pub last_seq : ℤ  -- int
  pub last_hb : ℕ  -- unsigned long
  pub hb_count : ℤ  -- int
  pub gateway_ring : Option R
  pub close_code : ℕ  -- unsigned int
  pub gateway_rx_buffer : Option Bytes
  pub gateway_rx_buffer_len : ℕ
  pub gateway_session_id : Option Bytes
  pub gateway_bot_limit : ℤ
  pub gateway_bot_remaining : ℤ
  pub gateway_bot_reset : ℕ
  pub gi : Option (List GatewayInterface)
  pub gi_count : ℤ
  pub current_user : Option (Option User)
  pub device : Option Bytes
  pub browser : Option Bytes
  pub os : Option Bytes
  pub init_presence : Option StatusUpdate

-- `enum ld_callback_reason`
pub data CallbackReason : Type 0 where
  unknown hello resumed invalid_session ready : CallbackReason
  channel_create channel_update channel_delete channel_pins_update : CallbackReason
  guild_create guild_update guild_delete guild_ban_add guild_ban_remove : CallbackReason
  guild_emojis_update guild_integrations_update : CallbackReason
  guild_member_add guild_member_remove guild_member_update guild_members_chunk : CallbackReason
  guild_role_create guild_role_update guild_role_delete : CallbackReason
  message_create message_update message_delete message_delete_bulk : CallbackReason
  message_reaction_add message_reaction_remove message_reaction_remove_all : CallbackReason
  presence_update typing_start user_update : CallbackReason
  voice_state_update voice_server_update webhooks_update : CallbackReason
  ws_established ws_connection_error ws_gateway_init_close : CallbackReason

-- The `void *data` of the user's callback.
pub data CallbackData (J : Type 0) : Type 0 where
  null : CallbackData J
  json : Option J → CallbackData J
  close_message : Option Bytes → CallbackData J

-- What the gateway code calls and does not define: jansson, the ring of libwebsockets, the function
-- at a callback's address (a run, since it may fault), and `lws_write`, which returns the number of bytes written or an error.
pub record Platform (J R : Type 0) : Type 0 where
  pub jansson : Jansson J
  pub ring : LwsRing R GatewayPayload
  pub call : Handle → Context R → CallbackReason → CallbackData J → ℕ → Exec (ℤ × Context R)
  pub lws_write : Bytes → ℤ
  -- LWS_PRE, the room that libwebsockets keeps in front of a payload
  pub lws_pre : ℕ
