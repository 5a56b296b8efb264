-- ===== src/Gateway/Receive.antt =====
-- Receiving: `case LWS_CALLBACK_CLIENT_RECEIVE` of `ld_lws_callback` (lib/libdiscord.c).
pub mod Fragments
use libdiscord.Prelude.{
  ℕ, ◌+◌, ℤ, pos, Bool, true, false, ◌&&◌, not, Option, none, some, ◌++◌, [], Bytes, is_some,
  if◌then◌else◌, length, take, Exec, done, ◌>>=◌,
}
use libdiscord.Stdlib.{strncpy}
use libdiscord.Context.{Context, Platform}
use libdiscord.Gateway.Dispatch.{Result}
use libdiscord.Gateway.Parser.{payload_parser}

module _ {J R : Type 0} (env : Platform J R) where
  -- The part of the buffer that holds data: nothing, for a null buffer.
  unfoldable pub buffered : Context R → Bytes
  buffered c = elim c.gateway_rx_buffer [ none ↦ [] | some b ↦ take c.gateway_rx_buffer_len b ]

  -- `realloc`, and `strncpy` to the end of the data.
  unfoldable pub append_fragment : Context R → Bytes → Context R
  unfolding buffered
  append_fragment c bytes = record c {
    gateway_rx_buffer = some (buffered c ++ strncpy bytes);
    gateway_rx_buffer_len = c.gateway_rx_buffer_len + length bytes;
  }

  -- The buffer is freed.
  abbrev pub drop_buffer : Result env → Result env
  drop_buffer (i, c) = (i, record c { gateway_rx_buffer = none; gateway_rx_buffer_len = 0 })

  -- The bytes of a frame, and whether it is the first and the final fragment of its message.
  unfoldable pub receive : Bool → ℕ → Context R → Bytes → Bool → Bool → Exec (Result env)
  unfolding buffered append_fragment
  receive m now c bytes first final =
      let single = payload_parser env m now c bytes >>= (λ r. done (drop_buffer r)) in
      let fresh = record c {
        gateway_rx_buffer = some (strncpy bytes);
        gateway_rx_buffer_len = length bytes;
      } in
      let longer = append_fragment c bytes in
      let last =
        payload_parser env m now longer (buffered longer) >>= (λ r. done (drop_buffer r)) in
      if not (is_some c.gateway_rx_buffer) && final
      then single
      else if first
      then done (pos 0, fresh)
      else if final && is_some c.gateway_rx_buffer
      then last
      else done (pos 0, longer)
