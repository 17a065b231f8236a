-- ===== src/Tree.antt =====
-- The search tree (mcts.c, mcts.h). The log messages are left out, and so, but for Selection, are
-- the assertions, which an option disables. Numbers are `u32` in the source and stay far below its
-- bound.
pub mod Children
pub mod Kept
pub mod Labels
pub mod Expansion
pub mod Selection
use aflnet_legion.Common.{
  ℕ, zero, suc, ◌+◌, ◌≡◌, Bool, true, false, not, ◌&&◌, ◌||◌, Option, none, some, List, [], ◌∷◌,
  ◌++◌, ◌==◌, if◌then◌else◌, length,
}
use aflnet_legion.States.{has}

-- The links between the nodes, which GLib keeps: what its documentation says of `g_node_new`,
-- `g_node_append_data` and of the fields that `g_node_first_child`, `g_node_next_sibling` and
-- `->parent` read. A node is its address.
pub record GNodes : Type 1 where
  pub Links : Type 0
  pub IsNode : Links → ℕ → Type 0
  pub children : Links → ℕ → List ℕ
  pub parent : Links → ℕ → Option ℕ
  -- the address of the next new node
  pub fresh : Links → ℕ
  -- the new node becomes the last child of a node
  pub append : Links → ℕ → Links
  -- one node alone, which `g_node_new` made
  pub single : Links
  pub root : ℕ
  pub single_node : IsNode single root
  pub single_leaf : (n : ℕ) → children single n ≡ []
  pub single_parent : parent single root ≡ none
  pub fresh_unused : (s : Links) → IsNode s (fresh s) → ⊥
  pub append_new : (s : Links) (n : ℕ) → IsNode (append s n) (fresh s)
  pub append_keeps : (s : Links) (n m : ℕ) → IsNode s m → IsNode (append s n) m
  pub child_node : (s : Links) (n c : ℕ) → has (children s n) c ≡ true → IsNode s c
  pub fresh_leaf : (s : Links) → children s (fresh s) ≡ []
  pub children_at :
      (s : Links) (n : ℕ) → IsNode s n → children (append s n) n ≡ children s n ++ fresh s ∷ []
  pub children_else : (s : Links) (n m : ℕ) → (n ≡ m → ⊥) → children (append s n) m ≡ children s m
  pub child_parent : (s : Links) (n c : ℕ) → has (children s n) c ≡ true → parent s c ≡ some n
  pub parent_else : (s : Links) (n m : ℕ) → (fresh s ≡ m → ⊥) → parent (append s n) m ≡ parent s m

pub data NodeColour : Type 0 where
  white red golden purple black : NodeColour

abbrev pub is_white : NodeColour → Bool
is_white white = true
is_white _ = false

abbrev pub is_golden : NodeColour → Bool
is_golden golden = true
is_golden _ = false

abbrev pub is_purple : NodeColour → Bool
is_purple purple = true
is_purple _ = false

abbrev pub is_black : NodeColour → Bool
is_black black = true
is_black _ = false

-- `seed_info_t`. A queue entry is its address.
pub record SeedInfo : Type 0 where
  pub q : ℕ
  pub parent_index : ℕ
  pub selected : ℕ
  pub discovered : ℕ

-- The two counts of the source, `path_len` and `seeds_count`, are the lengths of the lists. The
-- allocation leaves `simulation_child` undefined, here `none`.
pub record TreeNodeData : Type 0 where
  pub id : ℕ
  pub path : List ℕ
  pub selected : ℕ
  pub discovered : ℕ
  pub seeds : List SeedInfo
  pub region_indices : List ℕ
  pub simulation_child : Option ℕ
  pub colour : NodeColour
  pub fully_explored : Bool
  pub exhausted : Bool

-- `kh_put`, and 0 for a code that was not in the table.
abbrev pub put_absent : (ℕ → Option ℕ) → ℕ → ℕ → Option ℕ
put_absent table code x =
    if x == code then elim (table code) [ none ↦ some 0 | some n ↦ some n ] else table x

unfoldable pub new_tree_node_data : ℕ → NodeColour → List ℕ → TreeNodeData
new_tree_node_data response_code colour path = record {
  id = response_code;
  path = path;
  selected = 0;
  discovered = 0;
  seeds = [];
  region_indices = [];
  simulation_child = none;
  colour = colour;
  fully_explored = false;
  exhausted = false;
}

-- The id of every node that stands for a simulation.
abbrev pub simulation_id : ℕ
simulation_id = 999

unfoldable pub construct_seed_with_queue_entry : ℕ → SeedInfo
construct_seed_with_queue_entry q = record { q = q; parent_index = 0; selected = 0; discovered = 0 }

-- The first of the children with this id.
unfoldable pub find_code : (ℕ → TreeNodeData) → ℕ → List ℕ → Option ℕ
find_code data_of code [] = none
find_code data_of code (c ∷ cs) =
    let rest = find_code data_of code cs in if (data_of c).id == code then some c else rest

abbrev pub set_simulation_child : ℕ → TreeNodeData → TreeNodeData
set_simulation_child child d = record d { simulation_child = some child }

abbrev pub set_colour : NodeColour → TreeNodeData → TreeNodeData
set_colour colour d = record d { colour = colour }

abbrev pub set_fully_explored : Bool → TreeNodeData → TreeNodeData
set_fully_explored explored d = record d { fully_explored = explored }

abbrev pub add_seed : SeedInfo → ℕ → TreeNodeData → TreeNodeData
add_seed seed matching_region_index d = record d {
  seeds = d.seeds ++ record seed { parent_index = length d.seeds } ∷ [];
  region_indices = d.region_indices ++ matching_region_index ∷ [];
}

module _ (g : GNodes) where
  open g use {Links}

  -- The links, what each node's data pointer leads to, and `khmn_nodes`.
  pub record Tree : Type 0 where
    pub links : Links
    pub data_of : ℕ → TreeNodeData
    pub khmn_nodes : ℕ → Option ℕ

module _ {g : GNodes} where
  open g use {Links, children, fresh, append}

  -- An assignment through a node's data pointer.
  unfoldable pub modify : Tree g → ℕ → (TreeNodeData → TreeNodeData) → Tree g
  modify t n f = record t { data_of = λ x. if x == n then f (t.data_of n) else t.data_of x }

  unfoldable pub get_simulation_child : Tree g → ℕ → Option ℕ
  get_simulation_child t n = (t.data_of n).simulation_child

  unfoldable pub exists_child : Tree g → ℕ → ℕ → Option ℕ
  unfolding find_code
  exists_child t n code = find_code t.data_of code (children t.links n)

  -- `g_node_append_data` of new data: the tree with the new node, whose address was fresh.
  unfoldable pub append_data : Tree g → ℕ → ℕ → NodeColour → List ℕ → Tree g
  unfolding new_tree_node_data
  append_data t n code colour path = record {
    links = append t.links n;
    data_of = λ x. if x == fresh t.links then new_tree_node_data code colour path else t.data_of x;
    khmn_nodes = put_absent t.khmn_nodes code;
  }

  -- The simulation child is golden and so has none of its own.
  unfoldable pub append_simulation : Tree g → ℕ → List ℕ → Tree g
  unfolding append_data modify
  append_simulation t n path =
      modify (append_data t n simulation_id golden path) n (set_simulation_child (fresh t.links))

  unfoldable pub append_child : Tree g → ℕ → ℕ → NodeColour → List ℕ → Tree g × ℕ
  unfolding append_data append_simulation
  append_child t n code colour path =
      let grown = append_data t n code colour path in
      let child = fresh t.links in
      (if is_white colour then append_simulation grown child path else grown, child)

  unfoldable pub is_leaf : Tree g → ℕ → Bool
  is_leaf t n = not (is_purple (t.data_of n).colour) && elim (children t.links n) [
    | [] ↦ true
    | c ∷ [] ↦ is_golden (t.data_of c).colour
    | c ∷ d ∷ rest ↦ false
  ]

  unfoldable pub add_seed_to_node : SeedInfo → ℕ → ℕ → Tree g → Tree g
  unfolding modify
  add_seed_to_node seed matching_region_index node t =
      modify t node (add_seed seed matching_region_index)
