-- ===== src/Gateway/Dispatch.antt =====
-- Dispatch of gateway events to the user's callback: `ld_gateway_dispatch_parser` and
-- `ld_dispatch_ready` in lib/libdiscord.c.
pub mod Table
use libdiscord.Prelude.{
  ℕ, ℤ, pos, Bool, true, false, Option, none, some, List, [], ◌∷◌, Bytes, text, bytes_eq,
  if◌then◌else◌, Exec, fault, done, deref, ◌>>=◌,
}
use libdiscord.Status.{code, ok, error, json_gateway_dispatch_type_err, is_ok}
use libdiscord.Jansson.{Jansson, entries_opt}
use libdiscord.Context.{
  Context, CallbackReason, CallbackData, null, json, Platform, ready, channel_create,
  channel_update, channel_delete, channel_pins_update, guild_create, guild_update, guild_delete,
  guild_ban_add, guild_ban_remove, guild_emojis_update, guild_integrations_update, guild_member_add,
  guild_member_remove, guild_member_update, guild_members_chunk, guild_role_create,
  guild_role_update, guild_role_delete, message_create, message_update, message_delete,
  message_delete_bulk, message_reaction_add, message_reaction_remove, message_reaction_remove_all,
  presence_update, typing_start, user_update, voice_state_update, voice_server_update,
  webhooks_update,
}

-- The library's own handler of an event, `dispatch_callback`.
pub data Handler : Type 0 where
  no_handler dispatch_ready : Handler

-- `struct ld_dispatch`
pub record DispatchEntry : Type 0 where
  pub name : Bytes
  pub cbk_reason : CallbackReason
  pub dispatch_callback : Handler

abbrev entry : Bytes → CallbackReason → DispatchEntry
entry name reason = record { name = name; cbk_reason = reason; dispatch_callback = no_handler }

-- `dispatch_dict`, without its terminator.
unfoldable pub dispatch_dict : List DispatchEntry
dispatch_dict =
    record { name = text "READY"; cbk_reason = ready; dispatch_callback = dispatch_ready }
    ∷ entry (text "CHANNEL_CREATE") channel_create
    ∷ entry (text "CHANNEL_UPDATE") channel_update
    ∷ entry (text "CHANNEL_DELETE") channel_delete
    ∷ entry (text "CHANNEL_PINS_UPDATE") channel_pins_update
    ∷ entry (text "GUILD_CREATE") guild_create
    ∷ entry (text "GUILD_UPDATE") guild_update
    ∷ entry (text "GUILD_DELETE") guild_delete
    ∷ entry (text "GUILD_BAN_ADD") guild_ban_add
    ∷ entry (text "GUILD_BAN_REMOVE") guild_ban_remove
    ∷ entry (text "GUILD_EMOJIS_UPDATE") guild_emojis_update
    ∷ entry (text "GUILD_INTEGRATIONS_UPDATE") guild_integrations_update
    ∷ entry (text "GUILD_MEMBER_ADD") guild_member_add
    ∷ entry (text "GUILD_MEMBER_REMOVE") guild_member_remove
    ∷ entry (text "GUILD_MEMBER_UPDATE") guild_member_update
    ∷ entry (text "GUILD_MEMBERS_CHUNK") guild_members_chunk
    ∷ entry (text "GUILD_ROLE_CREATE") guild_role_create
    ∷ entry (text "GUILD_ROLE_UPDATE") guild_role_update
    ∷ entry (text "GUILD_ROLE_DELETE") guild_role_delete
    ∷ entry (text "MESSAGE_CREATE") message_create
    ∷ entry (text "MESSAGE_UPDATE") message_update
    ∷ entry (text "MESSAGE_DELETE") message_delete
    ∷ entry (text "MESSAGE_DELETE_BULK") message_delete_bulk
    ∷ entry (text "MESSAGE_REACTION_ADD") message_reaction_add
    ∷ entry (text "MESSAGE_REACTION_REMOVE") message_reaction_remove
    ∷ entry (text "MESSAGE_REACTION_REMOVE_ALL") message_reaction_remove_all
    ∷ entry (text "PRESENCE_UPDATE") presence_update
    ∷ entry (text "TYPING_START") typing_start
    ∷ entry (text "USER_UPDATE") user_update
    ∷ entry (text "VOICE_STATE_UPDATE") voice_state_update
    ∷ entry (text "VOICE_SERVER_UPDATE") voice_server_update
    ∷ entry (text "WEBHOOKS_UPDATE") webhooks_update
    ∷ []

module _ {J R : Type 0} (env : Platform J R) where
  -- A status or the user's value, with the context after the call.
  abbrev pub Result : Type 0
  Result = ℤ × Context R

  -- `context->user_callback(context, reason, data, len)`: a null function pointer is a fault.
  unfoldable pub call_user : Context R → CallbackReason → CallbackData J → ℕ → Exec Result
  call_user c reason d len = do f ← deref c.user_callback; env.call f c reason d len

  -- The loop of `ld_dispatch_ready`: the first `session_id` ends it, and `strdup` of NULL faults.
  unfoldable pub find_session : Context R → List (Bytes × J) → Exec Result
  find_session c [] = done (code error, c)
  find_session c ((key, value) ∷ es) =
      let rest = find_session c es in
      let found =
        (deref (env.jansson.string_value value) >>= λ s.
        done (code ok, record c { gateway_session_id = some s })) in
      if bytes_eq key (text "session_id") then found else rest

  -- `ld_dispatch_ready`
  unfoldable pub ready_callback : Context R → Option J → Exec Result
  unfolding find_session
  ready_callback c d = find_session c (entries_opt env.jansson d)

  -- The library's callback of an entry; the user's callback is not called after an error of it.
  unfoldable pub run_handler : Handler → Context R → Option J → Exec Result
  unfolding ready_callback
  run_handler no_handler c d = done (code ok, c)
  run_handler dispatch_ready c d = ready_callback c d

  -- What the loop does with an entry of the right name.
  unfoldable pub run_entry : DispatchEntry → Context R → Option J → Exec Result
  unfolding run_handler call_user
  run_entry e c d = do
    (ret, c') ← run_handler e.dispatch_callback c d
    let called = call_user c' e.cbk_reason (json d) 0
    if is_ok ret then called else done (code error, c')

  -- The loop over the dictionary.
  unfoldable pub search_dict : List DispatchEntry → Bytes → Context R → Option J → Exec Result
  search_dict [] name c d = done (code ok, c)
  search_dict (e ∷ es) name c d =
      let rest = search_dict es name c d in if bytes_eq name e.name then run_entry e c d else rest

  -- The test of the type for a string.
  unfoldable pub dispatch_named : Option Bytes → Context R → Option J → Exec Result
  unfolding search_dict dispatch_dict
  dispatch_named none c d = done (code json_gateway_dispatch_type_err, c)
  dispatch_named (some name) c d = search_dict dispatch_dict name c d

  -- `ld_gateway_dispatch_parser`; the type is a pointer that the caller may have left uninitialised
  -- (`none`), and reading it then is a fault.
  unfoldable pub dispatch_parser : Context R → Option J → Option J → Exec Result
  dispatch_parser c type d = do t ← deref type; dispatch_named (env.jansson.string_value t) c d
