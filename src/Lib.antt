-- ===== src/Lib.antt =====
-- libdiscord, a C library for bots of the Discord chat service, over libcurl, libwebsockets and jansson.
--
-- The program. A bot sets up a context (`ld_init_context`), then calls `ld_service` in a loop. Without a connection
-- `ld_service` connects (`ld_connect`: requests over HTTP for the gateway's URLs and the current user, then
-- the websocket). With one it looks after the heartbeat and lets libwebsockets call `ld_lws_callback` for
-- each event: fragments of messages are put together and parsed (`ld_gateway_payload_parser`), events are
-- dispatched to the bot's callback (`ld_gateway_dispatch_parser`), and payloads that wait in a ring are sent.
--
-- Which file models which part:
--   Status         lib/status.h and `enum ldecode`: statuses as integers
--   Snowflake, User, Message, Identify, Payload
--                  lib/json.h, lib/json.c: the structures and their reading from JSON or writing to it
--   Context        lib/libdiscord.h: `struct ld_context` as a record, `enum ld_callback_reason`
--   Gateway        lib/libdiscord.c: Dispatch (`ld_gateway_dispatch_parser`), Parser
--                  (`ld_gateway_payload_parser`), Heartbeat (`ld_gateway_queue_heartbeat` and the timer of
--                  `ld_service`), Receive and Callback (`ld_lws_callback`), Service (`ld_service`)
--                  and Interface (`_ld_init_gi`). Order: the queue of texts that sending promises, against the
--                  loop of `ld_service`. Sessions: how long a session is kept
--   Connect, Init  lib/libdiscord.c: `ld_connect` and what it calls (Requests: its requests by their
--                  answers); `ld_init_context` and what it calls, `ld_get_os_name`
--   Rest           lib/REST.c: Headers, Response, Request, Send; Callbacks: those for curl in
--                  lib/libdiscord.c
--   Memory         who frees what: the functions of lib/REST.c, lib/json.c and lib/libdiscord.c that free
--                  memory, by the addresses of their blocks
--   Timestamp      lib/json.c: `ld_json_read_timestamp`
--   Log            lib/log.c
--   Bots           example_bots/: Ayylmao, Counter and Hash (callbacks and options; Posted in each: down
--                  to the transfer of the answer), Options (those of the other bots), Loop and Main (the
--                  loops and `main` functions of all five)
--   Stdlib         what the code uses of the C library
--   Jansson, Ring  the third-party interfaces: records of operations, with the laws that are relied on; Tree
--                  and Queue are instances of them
--   Prelude        shared names: native numbers, integers, lists, bytes, runs that may fault
--   Tests          concrete inputs
--
-- How state and errors are modelled. A function that changes the context takes it and returns it. `none` is
-- a null pointer. `Exec` is a run: `fault` is undefined behaviour (a null or uninitialised pointer that is
-- read, an access out of the bounds of a block), `done` a value. A call of the bot's callback, of the
-- network or of the allocator is an argument (`Platform`, `Web`, `Outside`, `Setup`, and for the bots
-- `Surroundings` and `Digests`). Logging changes nothing and is left out, except for lib/log.c itself.
-- Loops are structural recursion on the list that they go over, so that no fuel is used but for decimal
-- digits (`print_digits`, one more than the number, which is above its digits). `hb_count` is taken not to
-- overflow an `int`.
--
-- Blocks of memory. A block has the bytes that the allocator lets a program use, an argument of the model
-- (`Web.alloc`). By the C standard these are the bytes asked for (`Unrounded`). glibc rounds blocks up
-- (`Rounded`), and the arrays of headers rely on that: `ld_headers_put` asks for too few bytes for the
-- values (`sizeof(char *) * headers->length + 1`), and `ld_rest_writefunction` writes a NUL past the bytes
-- that it asks for. A write past the bytes asked for is a fault where the block has no more of them, so
-- each theorem about a request that has headers or a response with a body says which blocks it needs.
--
-- Transfers. The easy handle has a record of the transfers made with it, each with what it was made with and
-- what came of it, to which `curl_easy_perform` adds one; what comes of a transfer is an argument of the
-- model (`Web.perform`) and may depend on the transfers before.
--
-- In Memory a structure is the record of its pointers, a heap the set of the addresses that are allocated,
-- and a fault the use or the freeing of a block that is not there.
--
-- Not modelled: the structures of lib/json.h that no function uses; functions that return a constant
-- and do nothing (`ld_json_unpack_user`, `ld_json_save_payload`); the branch of `ld_get_os_name` for Apple
-- systems; the tests. In the bots the chance of an answer, the digests of OpenSSL, what `getopt_long`
-- reports, and the turn in which `bot_exit` is set are inputs; the texts that they print and the clean-up
-- at their end are left out. `getdate` and `mktime` are parameters.
pub mod Prelude
pub mod Status
pub mod Stdlib
pub mod Jansson
pub mod Ring
pub mod Snowflake
pub mod Timestamp
pub mod User
pub mod Message
pub mod Identify
pub mod Payload
pub mod Context
pub mod Gateway
pub mod Rest
pub mod Connect
pub mod Init
pub mod Log
pub mod Memory
pub mod Bots
pub mod Tests
