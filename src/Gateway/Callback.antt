-- ===== src/Gateway/Callback.antt =====
-- `ld_lws_callback` (lib/libdiscord.c): what the library does on each event of its websocket.
pub mod Close
pub mod Transmit
use libdiscord.Prelude.{
  ℕ, ◌+◌, ◌*◌, ◌≤◌, ℤ, pos, negsuc, ltb_ℤ, Bool, true, false, ◌||◌, Option, none, some, List, [],
  ◌∷◌, ◌++◌, Bytes, ◌==◌, leb, if◌then◌else◌, length, get_elem?, drop, Exec, done, deref, within,
  ◌>>=◌, ◌>>◌,
}
use libdiscord.Stdlib.{strndup}
use libdiscord.Context.{
  Context, CallbackReason, null, close_message, GatewayPayload, GatewayInterface, Platform,
  ws_established, ws_connection_error, ws_gateway_init_close,
}
use libdiscord.Gateway.Dispatch.{Result, call_user}
use libdiscord.Gateway.Receive.{receive}

-- The events that libwebsockets reports, with what comes with them.
pub data Event : Type 0 where
  client_connection_error : Event
  filter_pre_establish get_thread_id : Event
  -- a reading of the clock
  client_established : ℕ → Event
  closed receive_pong : Event
  -- a fragment, whether it is the first and the final one, the clock, and whether the `malloc` of
  -- `ld_set_identify` succeeds
  client_receive : Bytes → Bool → Bool → ℕ → Bool → Event
  client_writeable : Event
  -- the readable memory at `in`, and `len`
  peer_initiated_close : Bytes → ℕ → Event
  change_mode_poll_fd lock_poll unlock_poll : Event
  drop_protocol client_closed wsi_destroy : Event
  other : ℕ → Event

-- A context, and the texts that were handed to `lws_write`.
pub record Host (R : Type 0) : Type 0 where
  pub context : Context R
  pub sent : List Bytes

-- `gi[0]->session_valid = 0`
pub invalidate_first : List GatewayInterface → Option (List GatewayInterface)
invalidate_first [] = none
invalidate_first (g ∷ gs) = some (record g { session_valid = false } ∷ gs)

module _ {J R : Type 0} (env : Platform J R) where
  -- `close_message = strndup(in + 1, len)` if `len` is not 0
  unfoldable pub copy_message : Bytes → ℕ → Exec (Option Bytes)
  copy_message memory len =
      let copied = deref (strndup (drop 1 memory) len) >>= (λ s. done (some s)) in
      if len == 0 then done none else copied

  -- The end of the close event: the sessions that cannot be resumed.
  unfoldable pub end_session : Context R → Exec (Result env)
  unfolding invalidate_first
  end_session c =
      let invalidated = do
        gis ← deref c.gi
        gis' ← deref (invalidate_first gis)
        done (pos 0, record c { gi = some gis' })
      in if c.close_code == 1000 || c.close_code == 4006 then invalidated else done (pos 0, c)

  -- `case LWS_CALLBACK_WS_PEER_INITIATED_CLOSE`: the code is the first two bytes; the user's result is
  -- not looked at.
  unfoldable pub peer_close : Context R → Bytes → ℕ → Exec (Result env)
  unfolding copy_message end_session call_user
  peer_close c memory len = do
    high ← deref (get_elem? memory 0)
    low ← deref (get_elem? memory 1)
    let c1 = record c { close_code = high * 256 + low }
    message ← copy_message memory len
    (i, c2) ← call_user env c1 ws_gateway_init_close (close_message message) c1.close_code
    end_session c2

  -- After `lws_write`: an error, or a partial write.
  written : ℤ → ℕ → ℤ
  written w len =
      if ltb_ℤ w (pos 0) then negsuc 0 else if ltb_ℤ w (pos len) then negsuc 0 else pos 0

  -- A payload is printed into the connection's buffer of 8192 bytes, behind the room for headers, and
  -- written.
  unfoldable pub transmit : Host R → Bytes → Exec (ℤ × Host R)
  unfolding written
  transmit h s =
      let write : ℤ × Host R =
        (written (env.lws_write s) (length s), record h { sent = h.sent ++ (s ∷ []) }) in
      within (leb (env.lws_pre + length s + 1) 8192)
      >> done (if length s == 0 then (negsuc 0, h) else write)

  -- What `lws_ring_consume` gave: nothing, or a payload and the ring without it.
  unfoldable pub send_first : Host R → Option (GatewayPayload × R) → Exec (ℤ × Host R)
  send_first h none = done (pos 0, h)
  send_first h (some (p, ring')) =
      transmit (record h { context = record (h.context) { gateway_ring = some ring' } }) p.payload

  -- `case LWS_CALLBACK_CLIENT_WRITEABLE`: the oldest payload leaves the ring, written or not.
  unfoldable pub writeable : Host R → Exec (ℤ × Host R)
  unfolding send_first transmit
  writeable h = do
    ring ← deref h.context.gateway_ring
    let send = send_first h (env.ring.consume ring)
    if env.ring.count_waiting ring == 0 then done (pos 0, h) else send

  -- A result about the context alone.
  abbrev pub with_sent : List Bytes → Exec (Result env) → Exec (ℤ × Host R)
  with_sent sent r = r >>= λ (i, c). done (i, record { context = c; sent = sent })

  -- The cases that change the context alone.
  unfoldable pub context_callback : Context R → Event → Exec (Result env)
  unfolding peer_close call_user
  context_callback c client_connection_error = do
    (i, c') ← call_user env c ws_connection_error null 0
    done (i, record c' { lws_wsi = none })
  context_callback c (client_established now) = do
    (i, c') ← call_user env c ws_established null 0
    done (i, record c' { last_hb = now })
  context_callback c (client_receive bytes first final now m) =
      receive env m now c bytes first final
  context_callback c (peer_initiated_close memory len) = peer_close c memory len
  context_callback c wsi_destroy = done (pos 0, record c { lws_wsi = none })
  context_callback c _ = done (pos 0, c)

  -- `ld_lws_callback`
  unfoldable pub lws_callback : Host R → Event → Exec (ℤ × Host R)
  unfolding writeable context_callback
  lws_callback h client_writeable = writeable h
  lws_callback h e = with_sent h.sent (context_callback h.context e)
