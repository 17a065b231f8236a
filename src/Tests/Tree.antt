-- ===== src/Tests/Tree.antt =====
-- Expansions of a small tree, and the theorems at them.
use aflnet_legion.Common.{ℕ, ◌<◌, ◌≡◌, refl, false, some, List, [], ◌∷◌, length, arith, map}
use aflnet_legion.Region.{Region}
use aflnet_legion.Tree.{Tree, white, golden}
use aflnet_legion.Tree.Expansion.{expansion, initialisation}
use aflnet_legion.Tree.Expansion.Walk.{walk}
use aflnet_legion.Tree.Expansion.Paths.{expansion_again}
use aflnet_legion.Tests.Links
use aflnet_legion.Tests.Links.{parents_array}

abbrev region_with : List ℕ → Region
region_with codes = record {
  start_byte = 0;
  end_byte = 9;
  state_sequence = some codes;
  state_count = length codes;
}

abbrev codes : List ℕ
codes = 0 ∷ 220 ∷ 331 ∷ []

-- The first message made the server answer once, the second too.
abbrev regions : List Region
regions = region_with (0 ∷ 220 ∷ []) ∷ region_with codes ∷ []

unfoldable pub tree_at_start : Tree parents_array
unfolding initialisation
tree_at_start = (initialisation parents_array).0

grown : Tree parents_array
unfolding expansion
grown = (expansion tree_at_start 0 7 regions codes).0

grown_runs : walk grown 0 (220 ∷ 331 ∷ []) ≡ some 4
unfolding grown walk Links.parent_of Links.children_from tree_at_start
grown_runs = refl

-- The root's simulation is node 1, node 2 is white with its simulation 3, and node 4 ends the path.
colours_run :
    map (λ n. (grown.data_of n).colour) (0 ∷ 1 ∷ 2 ∷ 3 ∷ 4 ∷ [])
    ≡ white ∷ golden ∷ white ∷ golden ∷ white ∷ []
unfolding grown Links.parent_of Links.children_from tree_at_start
colours_run = refl

is_node : 0 < length tree_at_start.links
unfolding tree_at_start
is_node = omega arith

expansion_again_at_input :
    let (t', leaf, new_path) = expansion tree_at_start 0 7 regions codes in
    let (t'', leaf', new_path') = expansion t' 0 8 regions codes in
    (leaf' ≡ leaf) × (new_path' ≡ false)
expansion_again_at_input =
    expansion_again tree_at_start 0 7 8 regions regions codes is_node
      (omega arith, (omega arith, tt))
