-- ===== src/Tree/Expansion/Paths.antt =====
-- What `Expansion` (mcts.c) does to the paths of response codes in the tree.
use aflnet_legion.Common.{
  arith, ℕ, ◌≡◌, ◌↔◌, refl, Bool, true, false, Option, none, some, List, length,
}
use aflnet_legion.Region.{Region}
use aflnet_legion.Tree.{GNodes, Tree, modify, is_leaf, set_fully_explored}
use aflnet_legion.Tree.Kept.{
  IsCovered, IsCovered-trans, modify-IsCovered, IsExtension, IsExtension-trans,
}
use aflnet_legion.Tree.Expansion.{Cursor, finds_new_path, tail, dye_all, expansion}
use aflnet_legion.Tree.Expansion.{seed_root, finish, gboolean}
use aflnet_legion.Tree.Expansion.Round.{add_to_simulation-IsCovered, add_discovered-IsCovered}
use aflnet_legion.Tree.Expansion.Walk.{
  walk, IsResponses, walk-IsExtension, finds_new_path-walk, dye_all-walk,
}

no_new_path :
    (b : Bool) (end : Option ℕ) (leaf : ℕ)
    → ((b ≡ true) ↔ (end ≡ none))
    → end ≡ some leaf
    → b ≡ false
no_new_path true end leaf new w = absurd (ground (arith, new.0 refl, w))
no_new_path false end leaf new w = refl

module _ {g : GNodes} where
  open g use {IsNode}

  finish-IsCovered :
      (fuel : ℕ) (new_path : Bool) (c : Cursor g) → IsCovered c.tree (finish fuel new_path c)
  unfolding finish
  finish-IsCovered fuel new_path c =
      let explored = set_fully_explored (is_leaf c.tree c.tree_node) in
      let marked = modify c.tree c.tree_node explored in
      IsCovered-trans c.tree marked (finish fuel new_path c)
        (modify-IsCovered c.tree c.tree_node explored (λ d. refl))
        (add_discovered-IsCovered fuel (gboolean new_path) c.tree_node marked)

  expansion-tree :
      (t : Tree g) (n q : ℕ) (regions : List Region) (codes : List ℕ)
      → IsNode t.links n
      → IsResponses (tail codes)
      → let (t', leaf, new_path) = expansion t n q regions codes in
        IsExtension t t' × (walk t' n (tail codes) ≡ some leaf)
  unfolding expansion seed_root
  expansion-tree t n q regions codes node responses =
      let start = seed_root t n q in
      let cover = add_to_simulation-IsCovered t q 0 n in
      let c = dye_all q regions codes 1 (tail codes) start in
      let (e, w) =
        dye_all-walk q regions codes 1 (tail codes) start (cover.0.1 n node) responses
          (λ is_new. ground arith) in
      let t' = finish (length codes) (finds_new_path t n (tail codes)) c in
      let end = finish-IsCovered (length codes) (finds_new_path t n (tail codes)) c in
      (
        IsExtension-trans t c.tree t' (IsExtension-trans t start.tree c.tree cover.0 e) end.0,
        walk-IsExtension c.tree t' n c.tree_node (tail codes) end.0 w,
      )

  pub expansion-walk :
      (t : Tree g) (n q : ℕ) (regions : List Region) (codes : List ℕ)
      → IsNode t.links n
      → IsResponses (tail codes)
      → let (t', leaf, new_path) = expansion t n q regions codes in
        (walk t' n (tail codes) ≡ some leaf) × ((new_path ≡ true) ↔ (walk t n (tail codes) ≡ none))
  unfolding expansion
  expansion-walk t n q regions codes node responses =
      ((expansion-tree t n q regions codes node responses).1, finds_new_path-walk t n (tail codes))

  pub walk-expansion :
      (t : Tree g) (n q : ℕ) (regions : List Region) (codes path : List ℕ) (m k : ℕ)
      → IsNode t.links n
      → IsResponses (tail codes)
      → walk t m path ≡ some k
      → walk (expansion t n q regions codes).0 m path ≡ some k
  walk-expansion t n q regions codes path m k node responses w =
      walk-IsExtension t (expansion t n q regions codes).0 m k path
        (expansion-tree t n q regions codes node responses).0 w

  -- When no response code behind the first is 999, a second `Expansion` with the same codes,
  -- whatever its seed and its regions, returns the same node as the first and finds no new path.
  pub expansion_again :
      (t : Tree g) (n q q' : ℕ) (regions regions' : List Region) (codes : List ℕ)
      → IsNode t.links n
      → IsResponses (tail codes)
      → let (t', leaf, new_path) = expansion t n q regions codes in
        let (t'', leaf', new_path') = expansion t' n q' regions' codes in
        (leaf' ≡ leaf) × (new_path' ≡ false)
  expansion_again t n q q' regions regions' codes node responses =
      let (t', leaf, new_path) = expansion t n q regions codes in
      let (e, w) = expansion-tree t n q regions codes node responses in
      let node' = e.1 n node in
      let (w', new) = expansion-walk t' n q' regions' codes node' responses in
      let kept = walk-expansion t' n q' regions' codes (tail codes) n leaf node' responses w in
      (ground (arith, w', kept), no_new_path _ (walk t' n (tail codes)) leaf new w)
