-- ===== src/Messages/Replay.antt =====
-- `main` of aflnet-replay.c: the packets of a file, sent one after the other.
use mathlib.Core.List.{append_assoc, append-nil}
use aflnet_legion.Common.{
  max_alloc, ℕ, zero, suc, ◌+◌, ◌*◌, ◌/◌, ◌%◌, ◌^◌, ◌≤◌, ◌<◌, ◌≡◌, refl, ap, ◌∙◌, true, false,
  Option, none, some, List, [], ◌∷◌, ◌++◌, map, ltb, length, take, drop, Bytes, arith, drop-append,
}
use aflnet_legion.Messages.{Message, fread, u32_bytes, stored, save_kl_messages_to_file}
use aflnet_legion.Messages.Packed.{
  AllSized, total_size, packed, take_whole, length-packed, stored_messages-some,
}

-- `fread(&size, sizeof(unsigned int), 1, fp) > 0`: a size and what is left, if four bytes are left.
abbrev pub read_size : Bytes → Option (ℕ × Bytes)
read_size (a ∷ b ∷ c ∷ d ∷ file) = some (a + b * 0x100 + c * 0x10000 + d * 0x1000000, file)
read_size _ = none

-- What the network does with a packet: `net_recv` and `net_send` succeed, or one of them breaks the
-- loop, before the packet is sent or after it.
pub data Exchange : Type 0 where
  exchanged : Exchange
  not_sent : Exchange
  last_sent : Exchange

abbrev pub send : Exchange → Bytes → Option (List Bytes) → Option (List Bytes)
send not_sent packet rest = some []
send last_sent packet rest = some (packet ∷ [])
send exchanged packet none = none
send exchanged packet (some packets) = some (packet ∷ packets)

-- The loop over the file, with fuel: the packets that are sent. The network's answers are a
-- parameter, by the packet's number. `none` means that the fuel ran out, or that `ck_alloc` has
-- aborted the program.
unfoldable pub replay_loop : ℕ → (ℕ → Exchange) → ℕ → Bytes → Option (List Bytes)
unfolding fread
replay_loop zero network packet_count file = none
replay_loop (suc fuel) network packet_count file = elim (read_size file) [
  | none ↦ some []
  | some (size, rest) ↦ elim (ltb max_alloc size) [
    | true ↦ none
    | false ↦
        send (network packet_count) (fread size rest)
          (replay_loop fuel network (packet_count + 1) (drop size rest))
  ]
]

-- A packet takes at least four bytes of the file.
unfoldable pub replay : (ℕ → Exchange) → Bytes → Option (List Bytes)
unfolding replay_loop
replay network file = replay_loop (length file + 1) network 0 file

read_size-u32_bytes :
    (n : ℕ) (file : Bytes) → n < 2 ^ 32 → read_size (u32_bytes n ++ file) ≡ some (n, file)
unfolding u32_bytes
read_size-u32_bytes n file h =
    let value : n % 256
          + n / 256 % 256 * 0x100
          + n / 0x10000 % 256 * 0x10000
          + n / 0x1000000 % 256 * 0x1000000
        ≡ n =
      omega arith in
    rw value refl

fread-append : (bs rest : Bytes) → fread (length bs) (bs ++ rest) ≡ bs
unfolding fread
fread-append [] rest = refl
fread-append (b ∷ bs) rest = ap (◌∷◌ b) (fread-append bs rest)

pub drop_nil : (n : ℕ) → drop {A = ℕ} n [] ≡ []
drop_nil zero = refl
drop_nil (suc n) = refl

module _ (network : ℕ → Exchange) (answers : (i : ℕ) → network i ≡ exchanged) where
  replay_loop-size :
      (file : Bytes) (n : ℕ) (rest : Bytes) (fuel i : ℕ)
      → read_size file ≡ some (n, rest)
      → n ≤ max_alloc
      → replay_loop (suc fuel) network i file
        ≡ send exchanged (fread n rest) (replay_loop fuel network (i + 1) (drop n rest))
  unfolding replay_loop
  replay_loop-size file n rest fuel i e h =
      let small : ltb max_alloc n ≡ false = ground arith in
      rw (replay_loop, e, small, answers i) refl

  stored-append :
      (m : Message) (file : Bytes)
      → length m.mdata ≡ m.msize
      → stored true m ++ file ≡ u32_bytes m.msize ++ (m.mdata ++ file)
  unfolding stored
  stored-append m file h =
      append_assoc (u32_bytes m.msize) (take m.msize m.mdata) file ∙ rw (take_whole m h) refl

  read_size-stored :
      (m : Message) (file : Bytes)
      → length m.mdata ≡ m.msize
      → m.msize ≤ max_alloc
      → read_size (stored true m ++ file) ≡ some (m.msize, m.mdata ++ file)
  read_size-stored m file h small =
      ap read_size (stored-append m file h)
      ∙ read_size-u32_bytes m.msize (m.mdata ++ file) (omega arith)

  replay_loop-message :
      (m : Message) (file : Bytes) (fuel i : ℕ)
      → length m.mdata ≡ m.msize
      → m.msize ≤ max_alloc
      → replay_loop (suc fuel) network i (stored true m ++ file)
        ≡ send exchanged m.mdata (replay_loop fuel network (i + 1) file)
  replay_loop-message m file fuel i h small =
      let packet : fread m.msize (m.mdata ++ file) ≡ m.mdata =
        rw (← h) (fread-append m.mdata file) in
      let left : drop m.msize (m.mdata ++ file) ≡ file = rw (← h) (drop-append m.mdata file) in
      replay_loop-size (stored true m ++ file) m.msize (m.mdata ++ file) fuel i
        (read_size-stored m file h small) small
      ∙ rw (packet, left) refl

  ends : (fuel i : ℕ) → 0 < fuel → replay_loop fuel network i [] ≡ some []
  unfolding replay_loop
  ends zero i w = absurd (omega arith)
  ends (suc fuel) i w = refl

  replay_loop-packed :
      (ms : List Message) (max fuel i : ℕ)
      → AllSized ms
      → total_size true max ms ≤ max_alloc
      → total_size true max ms < fuel
      → replay_loop fuel network i (packed true max ms) ≡ some (map Message.mdata (take max ms))
  unfolding packed
  replay_loop-packed [] zero fuel i h small w = ends fuel i w
  replay_loop-packed [] (suc max) fuel i h small w = ends fuel i w
  replay_loop-packed (m ∷ ms) zero fuel i h small w = ends fuel i w
  replay_loop-packed (m ∷ ms) (suc max) zero i h small w = absurd (omega arith)
  replay_loop-packed (m ∷ ms) (suc max) (suc fuel) i h small w =
      replay_loop-message m (packed true max ms) fuel i h.0 (omega arith)
      ∙ rw (replay_loop-packed ms max fuel (i + 1) h.1 (omega arith) (omega arith)) refl

-- For messages whose buffers are as long as their sizes say, of which the first `max_count` take at
-- most 2 ^ 30 bytes with four more for each, and for a network on which every exchange succeeds: a
-- new file is saved for replay, no allocation aborts the program, and the file makes the replay tool
-- send exactly the saved messages, in their order.
pub replay-save_kl_messages_to_file :
    (network : ℕ → Exchange) (ms : List Message) (max_count : ℕ)
    → ((i : ℕ) → network i ≡ exchanged)
    → AllSized ms
    → total_size true max_count ms ≤ max_alloc
    → (file : Bytes) × (save_kl_messages_to_file ms [] true max_count ≡ some file)
      × (replay network file ≡ some (map Message.mdata (take max_count ms)))
unfolding replay save_kl_messages_to_file
replay-save_kl_messages_to_file network ms max answers sized small =
    let file = packed true max ms in
    (
      file,
      rw
          (
            save_kl_messages_to_file,
            stored_messages-some true max 0 ms (omega arith),
            drop_nil (length file),
            append-nil file,
          )
          refl,
      replay_loop-packed network answers ms max (length file + 1) 0 sized small
          (omega (arith, length-packed true max ms sized)),
    )
