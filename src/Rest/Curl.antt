-- ===== src/Rest/Curl.antt =====
-- What the REST client calls and does not define: memory, libcurl and the level of the log.
use libdiscord.Prelude.{ℕ, ℤ, Bool, Option, List, [], ◌∷◌, ◌++◌, Bytes}

-- One transfer: its result (`CURLE_OK` is 0) when the write function takes every chunk, the status of
-- the response, and the chunks of its body.
pub record Exchange : Type 0 where
  pub result : ℤ
  pub status : ℤ
  pub chunks : List Bytes

-- What a transfer was made with, and what came of it.
pub record Transfer : Type 0 where
  pub url : Option Bytes
  pub http_header : List Bytes
  pub user_agent : Option Bytes
  pub post_fields : Option (Option Bytes)
  pub post_field_size : ℕ
  pub exchange : Exchange

-- The options that are set on an easy handle, which keeps them from one transfer to the next, and the
-- transfers that were made with it, in order. The write function and its argument are the same for each
-- transfer of the source.
pub record EasyOptions : Type 0 where
  pub url : Option Bytes
  pub http_header : List Bytes
  pub user_agent : Option Bytes
  pub post_fields : Option (Option Bytes)  -- the outer `none` before the option is set
  pub post_field_size : ℕ
  pub verbose : Bool
  pub performed : List Transfer

pub record Web : Type 0 where
  -- `malloc` and `realloc` for a number of bytes: the bytes of the block that a program may use, or NULL.
  -- By the C standard these are the bytes asked for; glibc rounds a block up (`malloc_usable_size`).
  pub alloc : ℕ → Option ℕ
  -- `curl_slist_append`, on the strings of the list; NULL on an error
  pub slist_append : List Bytes → Bytes → Option (List Bytes)
  -- What comes of a transfer, by the handle's options and by the transfers before it.
  pub perform : EasyOptions → Exchange
  -- `ld_get_logging_level()`
  pub logging_level : ℕ

-- The handle after a transfer with its options.
abbrev pub logged : EasyOptions → Exchange → EasyOptions
logged opts exchange = record opts {
  performed =
      opts.performed
      ++ ((record {
        url = opts.url;
        http_header = opts.http_header;
        user_agent = opts.user_agent;
        post_fields = opts.post_fields;
        post_field_size = opts.post_field_size;
        exchange = exchange;
      })
          ∷ []);
}

-- `curl_easy_perform`: what comes of the transfer, and the handle after it.
abbrev pub curl_easy_perform : Web → EasyOptions → Exchange × EasyOptions
curl_easy_perform web opts = (web.perform opts, logged opts (web.perform opts))

-- `sizeof(char *)`
abbrev pub pointer_size : ℕ
pointer_size = 8
