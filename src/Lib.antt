-- ===== src/Lib.antt =====
-- AFLNet_Legion, a fuzzer for network servers, as far as it handles messages, server states,
-- the search tree, the coverage bitmap and some helpers of the mutation stages.
--
-- A seed is a file of requests. When it is loaded, an extractor of requests (aflnet.c,
-- `extract_requests_*`, one for each protocol) splits it into regions; `construct_kl_messages`
-- reads the regions as messages, which are sent one after the other. The responses go through
-- an extractor of response codes (`extract_response_codes_*`), and
-- `update_state_aware_variables` (afl-fuzz.c) enters the sequence of codes, the server's
-- states, into a graph, a table of states and a map of what was fuzzed at which state.
-- `choose_target_state` picks the next state and `choose_seed` a seed for it. Messages are
-- stored by `save_kl_messages_to_file` and sent again by aflnet-replay.c. The search tree
-- (mcts.c) holds a node for each sequence of states seen: `preprocess_queue_entry` tidies a
-- seed's regions and `Expansion` adds the seed's codes to the tree. The bitmap of afl-fuzz.c
-- says which code an execution reached: `has_new_bits` compares it with what was seen,
-- `update_bitmap_score` keeps the best entry for each byte, and `cull_queue` marks entries that
-- together reach all of it. The mutation stages ask `calculate_score` for their length and
-- `choose_block_len` for blocks.
--
-- Which file models what:
--   Region            `region_t` of aflnet.h, and what it means for regions to tile a buffer
--   Requests/Lines    the SMTP, FTP and RTSP extractors of requests: terminators
--   Requests/Framed   the TLS and SSH extractors: a header with the size of what follows
--   Requests/Dicom, Requests/Dtls, Requests/Dns
--                     the extractors of those names
--   Responses/Lines   the SMTP, FTP and RTSP extractors of response codes, with C's `atoi`
--   Responses/Tls     the TLS and DICOM extractors of response codes
--   Responses/Dns     the DNS extractor of response codes
--   Responses/Dtls    the DTLS 1.2 extractor of response codes, `read_bytes_to_uint32`
--   Messages          `construct_kl_messages`, `convert_kl_messages_to_regions`,
--                     `save_kl_messages_to_file` of aflnet.c; Messages/Replay is the loop of
--                     aflnet-replay.c
--   States            the state variables of afl-fuzz.c with `get_state_index`,
--                     `expand_was_fuzzed_map`, `get_unique_state_count`,
--                     `is_state_sequence_interesting`, `update_fuzzs`
--   States/Update     `update_region_annotations`, `update_state_aware_variables`
--   States/Selection  `index_search`, `update_scores_and_select_next_state`,
--                     `choose_target_state`
--   States/SeedChoice `choose_seed`
--   Seeds             `remove_null_regions`, `truncate_long_regions` and
--                     `preprocess_queue_entry` of mcts.c
--   Tree              the nodes of the search tree of mcts.c: `new_tree_node_data`,
--                     `exists_child`, `append_child`, `is_leaf`, `add_seed_to_node`
--   Tree/Expansion    `Initialisation`, `Expansion` and `Propagation`
--   Tree/Selection    `tree_node_score`, `seed_score`, `best_child`, `best_seed`, `select_seed` and
--                     `is_fully_explored`; Tree/Selection/Descent is `select_tree_node` and
--                     `Selection`
--   Bitmap            `has_new_bits`, `count_bytes`, `count_non_255_bytes`, `simplify_trace`,
--                     `init_count_class16` and `classify_counts` of afl-fuzz.c
--   Bitmap/Culling    `minimize_bits`, `update_bitmap_score` and `cull_queue`
--   Mutation          `choose_block_len`, `calculate_score` and `could_be_bitflip` of afl-fuzz.c
--   Common            names of the libraries, Boolean tests, lists, bits, and words of the C
--                     sources
--   Tests             runs on small inputs
-- The modules below these hold their proofs, each named for what it proves.
--
-- How the code is rendered: a buffer is a list of bytes, its size the list's length, and the
-- counters of the loops keep the names they have. The growing array `mem` is a function from
-- indices to bytes, with older contents behind the current message, as in C. A function fails,
-- with `none` or with a constructor of its own, where the C code reads or writes outside of an
-- array that a buffer's user controls, or stops the program. Sums of `unsigned int` that can
-- wrap are taken modulo 2 ^ 32; where they cannot, since they are at most the size of a buffer,
-- they are sums. A result type says whether the fuel of a loop ran out.
--
-- Fuel: a structural recursion over the buffer needs none. The TLS and SSH loops, the TLS loop
-- over responses among them, have two rounds for each byte and two more, since a round takes a
-- byte or opens a new message; the DICOM loop has one round for each byte, since a packet is
-- not empty; the replay loop has one for each byte of the file, since a packet takes at least
-- four; the choice of a seed has five for each seed; that these are enough is proved. The loops
-- of `select_tree_node` take a number of rounds, with `rounds` of Tree/Selection/Termination as
-- the number that a tree needs. The DTLS loop over responses takes its fuel as an
-- argument, since the size of the response does not bound its rounds.
--
-- Parameters: the hash function of hash.h, the extractor that the `-P` option selects, the
-- score of the mode FAVOR (floating-point arithmetic), the random numbers, and the network's
-- answers in the replay loop. The links between the nodes of the tree, which GLib keeps, are a
-- record of operations with the laws that its documentation states, and Tests/Links has
-- operations that obey them. The scores of nodes and seeds are a record of their type, order
-- and formula, with the laws of a chain, which hold when no score is NaN, and the random
-- numbers drawn for ties; the assertions in the functions of Tree/Selection are taken to be in
-- force. Two tests of `calculate_score` on inexact products are arguments, and so is the size
-- of the bitmap. The hash tables and lists of khash.h and klist.h and the graph of graphviz are
-- functions and lists.
--
-- Not modelled: the extractor of response codes of SSH, the saving of new entries of the queue,
-- the stages of `fuzz_one`, the fork server, the network calls, the screen, and the tools
-- inherited from AFL. Output files, the graph's colours, log messages and the allocation of
-- memory are left out, except where `MAX_ALLOC` ends the program in `construct_kl_messages`,
-- `save_kl_messages_to_file`, the replay loop and the DTLS extractor of response codes: the arrays
-- of the other extractors are taken to stay below it.
pub mod Common
pub mod Region
pub mod Requests
pub mod Responses
pub mod Messages
pub mod States
pub mod Seeds
pub mod Tree
pub mod Bitmap
pub mod Mutation
mod Tests
