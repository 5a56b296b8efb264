-- ===== src/Tests/Memory.antt =====
-- The theorems on the blocks of memory, at concrete heaps.
use libdiscord.Prelude.{
  ℕ, ◌≡◌, refl, pos, true, false, none, some, [], ◌∷◌, leb, if◌then◌else◌, done,
}
use libdiscord.Memory.{Heap}
use libdiscord.Memory.Without.{blocks, has, Ready}
use libdiscord.Memory.Requests.{RequestBlocks, free_request, owned, cleared, free_request-without}
use libdiscord.Memory.Contexts.{
  ContextBlocks, cleanup_context, cleaned, curl_multi_cleanup, curl_global_cleanup,
  lws_context_destroy, lws_ring_destroy, cleanup_context-without,
}
use libdiscord.Memory.Structures.{
  MessageBlocks, message_cleanup, cleaned_part, kept_part, message_cleanup-without,
}

-- Every address up to 20 is a block.
abbrev twenty : Heap
twenty = λ b. leb b 20

abbrev one_header : RequestBlocks
one_header = record {
  body = some 1;
  body_size = 5;
  headers = some 2;
  header_blocks = record {
    length = some 1;
    key = some 3;
    value = some 4;
    keys = some 5 ∷ [];
    values = some 6 ∷ [];
  };
  base_url = some 7;
  endpoint = some 8;
  user_agent = some 9;
}

free_request-without_example :
    (h' : Heap) × (free_request one_header twenty ≡ done (cleared one_header, h'))
    × ((b : ℕ) → h' b ≡ (if has b (blocks (owned one_header 2)) then false else twenty b))
    × (h' 3 ≡ true)
    × (h' 4 ≡ true)
free_request-without_example =
    free_request-without one_header twenty 2 3 4
      (record { at_headers = refl; at_key = refl; at_value = refl; number = refl; same = refl })
      (
        (refl, (refl, (refl, (refl, (refl, (refl, tt)))))),
        (refl, (refl, (refl, (refl, (refl, (refl, tt)))))),
      )
      (refl, refl) (refl, refl)

abbrev no_user_yet : ContextBlocks
no_user_yet = record {
  gateway_session_id = some 1;
  current_user = none;
  init_presence = some 2;
  curl_multi_handle = some 30;
  lws_context = some 31;
  gateway_ring = some 32;
}

cleanup_context-without_example :
    (h' : Heap) × (cleanup_context (some no_user_yet) twenty
      ≡ done (
        h',
        curl_multi_cleanup (some 30)
            ∷ curl_global_cleanup
            ∷ lws_context_destroy (some 31)
            ∷ lws_ring_destroy (some 32)
            ∷ [],
      ))
    × ((b : ℕ) → h' b ≡ (if has b (blocks (cleaned no_user_yet)) then false else twenty b))
cleanup_context-without_example =
    cleanup_context-without no_user_yet twenty ((refl, (refl, tt)), (refl, (refl, tt)))

abbrev a_message : MessageBlocks
a_message = record {
  author = some 1;
  author_blocks = record {
    username = some 2;
    discriminator = some 3;
    avatar = none;
    locale = none;
    email = none;
  };
  content = some 4;
  timestamp = some 5;
  edited_timestamp = none;
}

message_cleanup-without_example :
    (h' : Heap) × (message_cleanup a_message twenty ≡ done (pos 0, h'))
    × ((b : ℕ) → h' b ≡ (if has b (blocks (cleaned_part a_message)) then false else twenty b))
    × Ready (kept_part a_message) h'
message_cleanup-without_example =
    message_cleanup-without a_message twenty
      ((refl, (refl, (refl, (refl, (refl, tt))))), (refl, (refl, (refl, (refl, (refl, tt))))))
