-- ===== src/Tests/Messages.antt =====
-- Messages, regions and files on small inputs.
use aflnet_legion.Common.{◌≡◌, refl, true, false, some, List, [], ◌∷◌, arith, Bytes}
use aflnet_legion.Region.{Region, region}
use aflnet_legion.Messages.{
  Message, construct_kl_messages, convert_kl_messages_to_regions, save_kl_messages_to_file,
}
use aflnet_legion.Messages.Seeds.{
  convert_kl_messages_to_regions-construct_kl_messages,
  save_kl_messages_to_file-construct_kl_messages,
}
use aflnet_legion.Messages.Replay.{exchanged, last_sent, replay, replay-save_kl_messages_to_file}

abbrev seed : Bytes
seed = 1 ∷ 2 ∷ 3 ∷ 4 ∷ 5 ∷ []

abbrev regions : List Region
regions = region 0 1 ∷ region 2 4 ∷ []

convert_kl_messages_to_regions-construct_kl_messages_example :
    (ms : List Message) × (construct_kl_messages seed regions ≡ some ms)
    × (convert_kl_messages_to_regions ms 2 ≡ some regions)
convert_kl_messages_to_regions-construct_kl_messages_example =
    convert_kl_messages_to_regions-construct_kl_messages seed regions 2 (omega arith) (omega arith)
      (omega arith)

save_kl_messages_to_file-construct_kl_messages_example :
    (ms : List Message) × (construct_kl_messages seed regions ≡ some ms)
    × (save_kl_messages_to_file ms [] false 2 ≡ some seed)
save_kl_messages_to_file-construct_kl_messages_example =
    save_kl_messages_to_file-construct_kl_messages seed regions 2 (omega arith) refl (omega arith)
      (omega arith)

abbrev messages : List Message
messages = record { mdata = 7 ∷ 8 ∷ []; msize = 2 } ∷ record { mdata = 9 ∷ []; msize = 1 } ∷ []

saved_runs :
    save_kl_messages_to_file messages [] true 9
    ≡ some (2 ∷ 0 ∷ 0 ∷ 0 ∷ 7 ∷ 8 ∷ 1 ∷ 0 ∷ 0 ∷ 0 ∷ 9 ∷ [])
unfolding save_kl_messages_to_file
saved_runs = refl

-- The file is not truncated: what an older, longer file held stays behind the messages.
saved_keeps_tail : save_kl_messages_to_file messages seed false 9 ≡ some (7 ∷ 8 ∷ 9 ∷ 4 ∷ 5 ∷ [])
unfolding save_kl_messages_to_file
saved_keeps_tail = refl

replay-save_kl_messages_to_file_example :
    (file : Bytes) × (save_kl_messages_to_file messages [] true 9 ≡ some file)
    × (replay (λ i. exchanged) file ≡ some ((7 ∷ 8 ∷ []) ∷ (9 ∷ []) ∷ []))
replay-save_kl_messages_to_file_example =
    replay-save_kl_messages_to_file (λ i. exchanged) messages 9 (λ i. refl) (refl, (refl, tt))
      (omega arith)

replay_breaks :
    replay (λ i. last_sent) (2 ∷ 0 ∷ 0 ∷ 0 ∷ 7 ∷ 8 ∷ 1 ∷ 0 ∷ 0 ∷ 0 ∷ 9 ∷ [])
    ≡ some ((7 ∷ 8 ∷ []) ∷ [])
unfolding replay
replay_breaks = refl
