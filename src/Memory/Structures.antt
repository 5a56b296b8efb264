-- ===== src/Memory/Structures.antt =====
-- `ld_json_user_cleanup` and `ld_json_message_cleanup` (lib/json.c) by the blocks that they free.
use libdiscord.Prelude.{
  ℕ, ◌≡◌, refl, false, List, [], ◌∷◌, ◌++◌, ℤ, pos, if◌then◌else◌, Exec, done, ◌>>=◌,
}
use libdiscord.Memory.{Pointer, Heap, free_all}
use libdiscord.Memory.Without.{
  blocks, has, without, without_lem, Ready, free_all-without, Ready-without, Ready-prefix,
}

-- `struct ld_json_user` by its pointers.
pub record UserBlocks : Type 0 where
  pub username : Pointer
  pub discriminator : Pointer
  pub avatar : Pointer
  pub locale : Pointer
  pub email : Pointer

-- The pointers of `struct ld_json_message` to strings, the author's block, and what is in it.
pub record MessageBlocks : Type 0 where
  pub author : Pointer
  pub author_blocks : UserBlocks
  pub content : Pointer
  pub timestamp : Pointer
  pub edited_timestamp : Pointer

-- `ld_json_user_cleanup`; the structure itself is not freed.
unfoldable pub user_cleanup : UserBlocks → Heap → Exec (ℤ × Heap)
user_cleanup u h = do
  h' ← free_all (u.username ∷ u.discriminator ∷ u.avatar ∷ u.locale ∷ []) h
  done (pos 0, h')

-- `ld_json_message_cleanup`
unfoldable pub message_cleanup : MessageBlocks → Heap → Exec (ℤ × Heap)
message_cleanup m h = do h' ← free_all (m.content ∷ m.author ∷ []) h; done (pos 0, h')

-- The pointers that a message holds: those that its clean-up frees, then the rest.
abbrev pub cleaned_part : MessageBlocks → List Pointer
cleaned_part m = m.content ∷ m.author ∷ []

abbrev pub kept_part : MessageBlocks → List Pointer
kept_part m =
    m.author_blocks.username ∷ m.author_blocks.discriminator ∷ m.author_blocks.avatar
    ∷ m.author_blocks.locale ∷ m.author_blocks.email ∷ m.timestamp ∷ m.edited_timestamp ∷ []

-- Where the blocks of a message are there and differ from one another: ld_json_message_cleanup frees the
-- content and the author's structure and nothing else, so that the strings of the author and the two
-- timestamps are all still there.
pub message_cleanup-without :
    (m : MessageBlocks) (h : Heap)
    → Ready (cleaned_part m ++ kept_part m) h
    → (h' : Heap) × (message_cleanup m h ≡ done (pos 0, h'))
      × ((b : ℕ) → h' b ≡ (if has b (blocks (cleaned_part m)) then false else h b))
      × Ready (kept_part m) h'
unfolding message_cleanup
message_cleanup-without m h ready = (
  without (blocks (cleaned_part m)) h,
  rw (free_all-without (cleaned_part m) h (Ready-prefix (cleaned_part m) (kept_part m) h ready))
      refl,
  without_lem (blocks (cleaned_part m)) h,
  Ready-without (cleaned_part m) (kept_part m) h ready,
)
