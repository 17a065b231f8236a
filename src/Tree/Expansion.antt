-- ===== src/Tree/Expansion.antt =====
-- `Initialisation`, `Expansion` and `Propagation` (mcts.c): how the tree of response codes starts,
-- how an execution is added to it, and what is counted.
pub mod Round
pub mod Walk
pub mod Paths
pub mod Steps
pub mod Labels
use aflnet_legion.Common.{
  ℕ, zero, suc, ◌+◌, ◌-◌, ◌*◌, ◌/◌, ◌%◌, Bool, true, false, not, ◌&&◌, ◌||◌, Option, none, some,
  List, [], ◌∷◌, ◌++◌, ◌==◌, ltb, leb, if◌then◌else◌, length, take, Bytes,
}
use aflnet_legion.Region.{Region}
use aflnet_legion.Seeds.{region_at}
use aflnet_legion.Tree.{
  GNodes, NodeColour, white, black, is_white, is_black, SeedInfo, TreeNodeData, new_tree_node_data,
  construct_seed_with_queue_entry, set_colour, set_fully_explored, Tree, put_absent, modify,
  get_simulation_child, exists_child, append_simulation, append_child, is_leaf, add_seed_to_node,
}

-- The bytes of an array of `u32`, the least significant first, as the fuzzer's machine stores them.
abbrev pub bytes_of : List ℕ → Bytes
bytes_of [] = []
bytes_of (n ∷ ns) =
    n % 256 ∷ n / 256 % 256 ∷ n / 256 / 256 % 256 ∷ n / 256 / 256 / 256 % 256 ∷ bytes_of ns

-- `memcmp` of so many bytes is 0; what lies behind the arrays counts as different.
abbrev pub same_bytes : ℕ → Bytes → Bytes → Bool
same_bytes zero xs ys = true
same_bytes (suc n) (x ∷ xs) (y ∷ ys) = x == y && same_bytes n xs ys
same_bytes (suc n) _ _ = false

abbrev pub states_of : Region → List ℕ
states_of r = elim r.state_sequence [ none ↦ [] | some codes ↦ codes ]

-- `matching_region_index` and `matched_exactly`.
pub record Match : Type 0 where
  pub region_index : ℕ
  pub exactly : Bool

-- The loop over the regions from `region_index` on, with the rounds that are left. With no region
-- that is long enough the match stays what it was.
unfoldable pub match_region : List ℕ → List Region → ℕ → ℕ → ℕ → Match → Match
match_region codes regions path_index zero region_index m = m
match_region codes regions path_index (suc left) region_index m =
    let rest = match_region codes regions path_index left (region_index + 1) m in
    let region = region_at regions region_index in
    if leb (path_index + 1) region.state_count
    then record {
      region_index = region_index;
      exactly =
          path_index == region.state_count - 1
          && same_bytes region.state_count (bytes_of codes) (bytes_of (states_of region));
    }
    else rest

abbrev pub first_region : Match → ℕ
first_region m = if m.exactly then m.region_index + 1 else m.region_index

abbrev pub smaller : ℕ → ℕ → ℕ
smaller a b = if ltb a b then a else b

module _ {g : GNodes} where
  -- The first round: whether the codes leave the tree.
  unfoldable pub finds_new_path : Tree g → ℕ → List ℕ → Bool
  unfolding exists_child
  finds_new_path t parent_node [] = false
  finds_new_path t parent_node (code ∷ codes) = elim (exists_child t parent_node code) [
    | none ↦ true
    | some child ↦ finds_new_path t child codes
  ]

  -- `add_seed_to_node` of a new seed in the simulation child. With no simulation child the source
  -- follows an undefined pointer; a white node has one.
  unfoldable pub add_to_simulation : ℕ → ℕ → ℕ → Tree g → Tree g
  unfolding get_simulation_child add_seed_to_node construct_seed_with_queue_entry
  add_to_simulation q matching_region_index node t = elim (get_simulation_child t node) [
    | none ↦ t
    | some sim ↦ add_seed_to_node (construct_seed_with_queue_entry q) matching_region_index sim t
  ]

abbrev pub tail : List ℕ → List ℕ
tail [] = []
tail (x ∷ xs) = xs

abbrev pub count_discovered : ℕ → TreeNodeData → TreeNodeData
count_discovered is_new d = record d { discovered = d.discovered + is_new }

abbrev pub gboolean : Bool → ℕ
gboolean b = if b then 1 else 0

-- The count of discoveries of one of the seeds.
abbrev pub count_seed : ℕ → ℕ → List SeedInfo → List SeedInfo
count_seed is_new i [] = []
count_seed is_new zero (s ∷ seeds) = record s { discovered = s.discovered + is_new } ∷ seeds
count_seed is_new (suc i) (s ∷ seeds) = s ∷ count_seed is_new i seeds

-- The variables of the second round.
module _ (g : GNodes) where
  pub record Cursor : Type 0 where
    pub tree : Tree g
    pub tree_node : ℕ
    pub new_node : Bool
    pub matching : Match

module _ {g : GNodes} where
  -- A node inside of the path is not fully explored.
  unfoldable pub correct_explored : Bool → ℕ → Tree g → Tree g
  unfolding modify
  correct_explored is_last node t =
      if not is_last && (t.data_of node).fully_explored
      then modify t node (set_fully_explored false)
      else t

  -- A black node inside of the path becomes white.
  unfoldable pub flip : Bool → ℕ → List ℕ → Tree g → Tree g
  unfolding modify append_simulation
  flip is_last node path t =
      if is_black (t.data_of node).colour && not is_last
      then append_simulation (modify t node (set_colour white)) node path
      else t

  -- What follows an exact match: the node may become white, and a white one takes the seed.
  unfoldable pub record_match : ℕ → ℕ → List Region → Bool → Match → ℕ → List ℕ → Tree g → Tree g
  unfolding flip add_to_simulation
  record_match q len_codes regions is_last m node path t =
      let flipped = flip is_last node path t in
      if is_white (flipped.data_of node).colour
        && ltb (region_at regions m.region_index).state_count len_codes
      then add_to_simulation q m.region_index node flipped
      else flipped

  -- The child for the code: the one that is there or, once a node was new, a new one.
  unfoldable pub next_node : Tree g → ℕ → ℕ → Bool → Bool → List ℕ → Bool × Tree g × ℕ
  unfolding exists_child append_child
  next_node t node code new_node exactly path =
      let colour = if exactly then white else black in
      let grown = append_child t node code colour path in
      elim (exists_child t node code) [
        | none ↦ (true, grown.0, grown.1)
        | some child ↦ if new_node then (true, grown.0, grown.1) else (false, t, child)
      ]

  module _ (q : ℕ) (regions : List Region) (codes : List ℕ) where
    -- One code of the second round.
    unfoldable pub dye : ℕ → ℕ → Cursor g → Cursor g
    unfolding correct_explored match_region next_node record_match
    dye path_index code c =
        let is_last = path_index + 1 == length codes in
        let path = take (path_index + 1) codes in
        let start = first_region c.matching in
        let m =
          match_region codes regions path_index (smaller (length regions) (length codes) - start)
            start c.matching in
        let corrected = correct_explored is_last c.tree_node c.tree in
        let (new_node, grown, node) =
          next_node corrected c.tree_node code c.new_node m.exactly path in
        record {
          tree =
              if m.exactly
              then record_match q (length codes) regions is_last m node path grown
              else grown;
          tree_node = node;
          new_node = new_node;
          matching = m;
        }

    -- The second round, for the codes that are left.
    unfoldable pub dye_all : ℕ → List ℕ → Cursor g → Cursor g
    unfolding dye
    dye_all path_index [] c = c
    dye_all path_index (code ∷ rest) c = dye_all (path_index + 1) rest (dye path_index code c)

  -- The climb along `parent` that ends the function, for at most so many nodes.
  unfoldable pub add_discovered : ℕ → ℕ → ℕ → Tree g → Tree g
  unfolding modify
  add_discovered zero new_path node t = t
  add_discovered (suc fuel) new_path node t =
      let counted = modify t node (count_discovered new_path) in
      elim (g.parent t.links node) [
        | none ↦ counted
        | some parent_node ↦ add_discovered fuel new_path parent_node counted
      ]

  -- The root's simulation takes every seed.
  unfoldable pub seed_root : Tree g → ℕ → ℕ → Cursor g
  unfolding add_to_simulation
  seed_root t tree_node q = record {
    tree = add_to_simulation q 0 tree_node t;
    tree_node = tree_node;
    new_node = false;
    matching = record { region_index = 0; exactly = false };
  }

  -- What follows the second round.
  unfoldable pub finish : ℕ → Bool → Cursor g → Tree g
  unfolding is_leaf modify add_discovered
  finish fuel new_path c =
      add_discovered fuel (gboolean new_path) c.tree_node
        (modify c.tree c.tree_node (set_fully_explored (is_leaf c.tree c.tree_node)))

  -- The path of the codes has as many nodes as there are codes, so the climb has the fuel it needs.
  -- The result is the tree, the node returned and `new_path`.
  unfoldable pub expansion : Tree g → ℕ → ℕ → List Region → List ℕ → Tree g × ℕ × Bool
  unfolding finds_new_path seed_root dye_all finish
  expansion t tree_node q regions codes =
      let new_path = finds_new_path t tree_node (tail codes) in
      let c = dye_all q regions codes 1 (tail codes) (seed_root t tree_node q) in
      (finish (length codes) new_path c, c.tree_node, new_path)

  -- `ROUND` counts the selections; before the first nothing is counted. The seed is the one at this
  -- index of the simulation node.
  unfoldable pub propagation : ℕ → ℕ → ℕ → Bool → Tree g → Tree g
  unfolding modify
  propagation round leaf_selected seed_selected is_new t =
      let counted = modify t leaf_selected (λ (d : TreeNodeData). record d {
        discovered = d.discovered + gboolean is_new;
        seeds = count_seed (gboolean is_new) seed_selected d.seeds;
      }) in
      if round == 0 then t else counted

module _ (g : GNodes) where
  -- The root, white, with its simulation.
  unfoldable pub initialisation : Tree g × ℕ
  unfolding append_simulation new_tree_node_data
  initialisation =
      let path = 0 ∷ [] in
      let bare : Tree g = record {
        links = g.single;
        data_of = λ x. new_tree_node_data 0 white path;
        khmn_nodes = put_absent (λ code. none) 0;
      } in
      (append_simulation bare g.root path, g.root)
