-- ===== src/Gateway/Interface.antt =====
-- `_ld_init_gi` (lib/libdiscord.c), which nothing calls.
use libdiscord.Prelude.{pos, negsuc, false, Option, none, some, [], ◌∷◌, Exec, done, deref, ◌>>=◌}
use libdiscord.Context.{Context, GatewayInterface, Handle}

-- What the function writes to the interface.
abbrev initialised : Handle → GatewayInterface → GatewayInterface
initialised context gi = record gi {
  parent_context = some context;
  shardnum = negsuc 0;
  lws_wsi = none;
  hb_interval = 41500;
  last_seq = pos 0;
  hb_count = pos 0;
  tx_ringbuffer = none;
  close_code = 0;
  session_valid = false;
}

-- The context's address, what `malloc` gives, and the context. A block is known by its first word, which
-- is read as a pointer, `context->gi[0]`, though nothing has written it: `none` if it points to no
-- interface.
unfoldable pub init_gi :
    {R : Type 0}
    → Handle
    → Option (Option GatewayInterface)
    → Context R
    → Exec (Option GatewayInterface × Context R)
init_gi context none c = done (none, record c { gi = none })
init_gi context (some first_word) c = do
  gi ← deref first_word
  done (some (initialised context gi), record c { gi = some (initialised context gi ∷ []) })
