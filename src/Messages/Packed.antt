-- ===== src/Messages/Packed.antt =====
-- The buffer of `save_kl_messages_to_file` (aflnet.c) where nothing stops the program.
use aflnet_legion.Common.{
  max_alloc, ℕ, zero, suc, ◌+◌, ◌≤◌, ◌≡◌, refl, Bool, true, false, some, List, [], ◌∷◌, ◌++◌, add32,
  length, take, Bytes, arith, take_all, length-append,
}
use aflnet_legion.Messages.{Message, u32_bytes, stored, stored_size, grow, stored_messages}

-- The messages one behind the other.
unfoldable pub packed : Bool → ℕ → List Message → Bytes
packed replay_enabled max [] = []
packed replay_enabled zero (m ∷ ms) = []
packed replay_enabled (suc max) (m ∷ ms) = stored replay_enabled m ++ packed replay_enabled max ms

-- What at most so many messages take together.
abbrev pub total_size : Bool → ℕ → List Message → ℕ
total_size replay_enabled max [] = 0
total_size replay_enabled zero (m ∷ ms) = 0
total_size replay_enabled (suc max) (m ∷ ms) =
    stored_size replay_enabled m + total_size replay_enabled max ms

-- The messages' buffers are as long as their sizes say.
abbrev pub AllSized : List Message → Type 0
AllSized [] = Unit {0}
AllSized (m ∷ ms) = (length m.mdata ≡ m.msize) × AllSized ms

pub take_whole : (m : Message) → length m.mdata ≡ m.msize → take m.msize m.mdata ≡ m.mdata
take_whole m h = rw (← h) (take_all m.mdata)

length-stored :
    (replay_enabled : Bool) (m : Message)
    → length m.mdata ≡ m.msize
    → length (stored replay_enabled m) ≡ stored_size replay_enabled m
unfolding stored u32_bytes
length-stored true m h = rw (take_whole m h) (omega (arith, h))
length-stored false m h = rw (take_whole m h) h

pub length-packed :
    (replay_enabled : Bool) (max : ℕ) (ms : List Message)
    → AllSized ms
    → length (packed replay_enabled max ms) ≡ total_size replay_enabled max ms
unfolding packed
length-packed replay_enabled zero [] h = refl
length-packed replay_enabled (suc max) [] h = refl
length-packed replay_enabled zero (m ∷ ms) h = refl
length-packed replay_enabled (suc max) (m ∷ ms) h = omega (
  arith,
  length-append (stored replay_enabled m) (packed replay_enabled max ms),
  length-stored replay_enabled m h.0,
  length-packed replay_enabled max ms h.1,
)

grow-some : (len more : ℕ) → len + more ≤ max_alloc → grow len more ≡ some (len + more)
unfolding grow
grow-some len more h =
    let same : add32 len more ≡ len + more = omega arith in rw same (ground arith)

pub stored_messages-some :
    (replay_enabled : Bool) (max len : ℕ) (ms : List Message)
    → len + total_size replay_enabled max ms ≤ max_alloc
    → stored_messages replay_enabled max len ms ≡ some (packed replay_enabled max ms)
unfolding stored_messages packed
stored_messages-some replay_enabled zero len [] h = refl
stored_messages-some replay_enabled (suc max) len [] h = refl
stored_messages-some replay_enabled zero len (m ∷ ms) h = refl
stored_messages-some replay_enabled (suc max) len (m ∷ ms) h =
    let more = stored_size replay_enabled m in
    rw
      (
        stored_messages,
        grow-some len more (omega arith),
        stored_messages-some replay_enabled max (len + more) ms (omega arith),
      )
      refl
