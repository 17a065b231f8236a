-- ===== src/Messages.antt =====
-- The messages of a seed (aflnet.c): `construct_kl_messages`, `convert_kl_messages_to_regions`,
-- `save_kl_messages_to_file`. The linked list of klist.h is a `List`, and a
-- file that is read is the bytes that are left in it.
pub mod Packed
pub mod Seeds
pub mod Replay
use aflnet_legion.Common.{
  ℕ, zero, suc, ◌+◌, ◌-◌, ◌*◌, ◌/◌, ◌%◌, ltb, ◌||◌, Bool, true, false, Option, none, some, List, [],
  ◌∷◌, ◌++◌, ◌==◌, if◌then◌else◌, length, take, drop, replicate, Bytes, sub32, add32, max_alloc,
}
use aflnet_legion.Region.{Region, region}

-- `message_t`
pub record Message : Type 0 where
  pub mdata : Bytes
  pub msize : ℕ

-- `fread` into a zeroed buffer of `len` bytes: where the file ends before, zeros are left.
unfoldable pub fread : ℕ → Bytes → Bytes
fread zero file = []
fread (suc len) [] = 0 ∷ fread len []
fread (suc len) (b ∷ file) = b ∷ fread len file

abbrev pub and_message : Message → Option (List Message) → Option (List Message)
and_message m none = none
and_message m (some ms) = some (m ∷ ms)

-- The regions' sizes, one after the other: the file is not positioned at a region's start. `none`
-- is a fatal error: `ck_alloc` returns `NULL` for the size 0.
unfoldable pub construct_kl_messages : Bytes → List Region → Option (List Message)
unfolding fread
construct_kl_messages file [] = some []
construct_kl_messages file (r ∷ rs) =
    let len = sub32 (r.end_byte + 1) r.start_byte in
    let rest = construct_kl_messages (drop len file) rs in
    if len == 0 || ltb max_alloc len
    then none
    else and_message (record { mdata = fread len file; msize = len }) rest

-- A region more in front of the rest.
abbrev pub before : Region → Option (List Region) → Option (List Region)
before r none = none
before r (some rs) = some (r ∷ rs)

-- The regions of at most so many messages, from `cur_start` on. `none` is the fatal error: an empty
-- message at offset 0 would end at -1. The offsets are `s32` and stay below `2 ^ 31`.
unfoldable pub convert_from : ℕ → ℕ → List Message → Option (List Region)
convert_from max cur_start [] = some []
convert_from zero cur_start (m ∷ ms) = some []
convert_from (suc max) cur_start (m ∷ ms) =
    let rest = convert_from max (cur_start + m.msize) ms in
    if cur_start + m.msize == 0
    then none
    else before (region cur_start (cur_start + m.msize - 1)) rest

unfoldable pub convert_kl_messages_to_regions : List Message → ℕ → Option (List Region)
unfolding convert_from
convert_kl_messages_to_regions ms max_count = convert_from max_count 0 ms

-- A `u32` as it lies in memory, little-endian.
unfoldable pub u32_bytes : ℕ → Bytes
u32_bytes n = n % 256 ∷ n / 256 % 256 ∷ n / 0x10000 % 256 ∷ n / 0x1000000 % 256 ∷ []

-- A message as it is stored: its size and its bytes, or its bytes alone.
unfoldable pub stored : Bool → Message → Bytes
unfolding u32_bytes
stored true m = u32_bytes m.msize ++ take m.msize m.mdata
stored false m = take m.msize m.mdata

-- `len` after `ck_realloc` and `memcpy` have put so many bytes behind `mem`. `none`: `ck_realloc`
-- aborts above `MAX_ALLOC`, or the sum wraps and `memcpy` writes behind the smaller buffer.
unfoldable pub grow : ℕ → ℕ → Option ℕ
grow len more =
    let size = add32 len more in
    if ltb max_alloc size || ltb size (len + more) then none else some size

abbrev pub and_bytes : Bytes → Option Bytes → Option Bytes
and_bytes bs none = none
and_bytes bs (some rest) = some (bs ++ rest)

-- What a message takes in the buffer.
abbrev pub stored_size : Bool → Message → ℕ
stored_size true m = 4 + m.msize
stored_size false m = m.msize

-- What at most so many messages add to the buffer `mem` behind its first `len` bytes.
unfoldable pub stored_messages : Bool → ℕ → ℕ → List Message → Option Bytes
unfolding stored grow
stored_messages replay_enabled max len [] = some []
stored_messages replay_enabled zero len (m ∷ ms) = some []
stored_messages replay_enabled (suc max) len (m ∷ ms) =
    let more = stored_size replay_enabled m in
    let rest = stored_messages replay_enabled max (len + more) ms in
    elim (grow len more) [ none ↦ none | some grown ↦ and_bytes (stored replay_enabled m) rest ]

-- The file's contents afterwards, from those before ([] for a new file), which `open` does not
-- truncate.
unfoldable pub save_kl_messages_to_file : List Message → Bytes → Bool → ℕ → Option Bytes
unfolding stored_messages
save_kl_messages_to_file ms old replay_enabled max_count =
    elim (stored_messages replay_enabled max_count 0 ms) [
      | none ↦ none
      | some mem ↦ some (mem ++ drop (length mem) old)
    ]
