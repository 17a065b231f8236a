-- ===== src/Tree/Expansion/Walk.antt =====
-- `Expansion` (mcts.c) and the paths of codes in the tree.
use aflnet_legion.Common.{
  arith, ℕ, ◌+◌, ◌≡◌, ◌≢◌, ◌↔◌, refl, sym, ◌∙◌, true, Option, none, some, List, [], ◌∷◌,
  Option-cases, inl, inr,
}
use aflnet_legion.Region.{Region}
use aflnet_legion.Tree.{GNodes, Tree, exists_child, simulation_id}
use aflnet_legion.Tree.Kept.{same-IsCovered, IsExtension, IsExtension-trans}
use aflnet_legion.Tree.Expansion.Round.{dye-IsFound}
use aflnet_legion.Tree.Expansion.{Cursor, finds_new_path, dye, dye_all}

-- No code is the id of the simulations.
abbrev pub IsResponses : List ℕ → Type 0
IsResponses [] = Unit
IsResponses (code ∷ codes) = (simulation_id ≢ code) × IsResponses codes

module _ {g : GNodes} where
  open g use {IsNode, child_node}

  -- The node that a path of codes leads to.
  unfoldable pub walk : Tree g → ℕ → List ℕ → Option ℕ
  walk t n [] = some n
  walk t n (code ∷ codes) = elim (exists_child t n code) [ none ↦ none | some c ↦ walk t c codes ]

  walk-step :
      (t : Tree g) (n code c : ℕ) (codes : List ℕ)
      → exists_child t n code ≡ some c
      → walk t n (code ∷ codes) ≡ walk t c codes
  unfolding walk
  walk-step t n code c codes e = rw (e, walk) refl

  walk-stop :
      (t : Tree g) (n code : ℕ) (codes : List ℕ)
      → exists_child t n code ≡ none
      → walk t n (code ∷ codes) ≡ none
  unfolding walk
  walk-stop t n code codes e = rw (e, walk) refl

  finds_new_path-step :
      (t : Tree g) (n code c : ℕ) (codes : List ℕ)
      → exists_child t n code ≡ some c
      → finds_new_path t n (code ∷ codes) ≡ finds_new_path t c codes
  unfolding finds_new_path
  finds_new_path-step t n code c codes e = rw (e, finds_new_path) refl

  finds_new_path-stop :
      (t : Tree g) (n code : ℕ) (codes : List ℕ)
      → exists_child t n code ≡ none
      → finds_new_path t n (code ∷ codes) ≡ true
  unfolding finds_new_path
  finds_new_path-stop t n code codes e = rw (e, finds_new_path) refl

  pub walk-IsExtension :
      (t t' : Tree g) (n m : ℕ) (codes : List ℕ)
      → IsExtension t t'
      → walk t n codes ≡ some m
      → walk t' n codes ≡ some m
  unfolding walk
  walk-IsExtension t t' n m [] e w = w
  walk-IsExtension t t' n m (code ∷ codes) e w = elim (Option-cases (exists_child t n code)) [
    | inl none_found ↦ absurd (ground (arith, sym (walk-stop t n code codes none_found) ∙ w))
    | inr (c, is_c) ↦
        walk-step t' n code c codes (e.0 n code c is_c)
        ∙ walk-IsExtension t t' c m codes e (sym (walk-step t n code c codes is_c) ∙ w)
  ]

  pub finds_new_path-walk :
      (t : Tree g) (n : ℕ) (codes : List ℕ)
      → (finds_new_path t n codes ≡ true) ↔ (walk t n codes ≡ none)
  unfolding walk finds_new_path
  finds_new_path-walk t n [] = ground arith
  finds_new_path-walk t n (code ∷ codes) = elim (Option-cases (exists_child t n code)) [
    | inl e ↦ (λ _. walk-stop t n code codes e, λ _. finds_new_path-stop t n code codes e)
    | inr (c, e) ↦
        let (there, back) = finds_new_path-walk t c codes in
        (
          λ new.
              walk-step t n code c codes e
              ∙ there (sym (finds_new_path-step t n code c codes e) ∙ new),
          λ out.
              finds_new_path-step t n code c codes e
              ∙ back (sym (walk-step t n code c codes e) ∙ out),
        )
  ]

  module _ (q : ℕ) (regions : List Region) (codes : List ℕ) where
    pub dye_all-walk :
        (path_index : ℕ) (rest : List ℕ) (c : Cursor g)
        → IsNode c.tree.links c.tree_node
        → IsResponses rest
        → (c.new_node ≡ true
            → (code' : ℕ) → simulation_id ≢ code'
            → exists_child c.tree c.tree_node code' ≡ none)
        → let c' = dye_all q regions codes path_index rest c in
          IsExtension c.tree c'.tree × (walk c'.tree c.tree_node rest ≡ some c'.tree_node)
    unfolding dye_all walk
    dye_all-walk path_index [] c node ne childless = ((same-IsCovered c.tree).0, refl)
    dye_all-walk path_index (code ∷ rest) c node (ne, nes) childless =
        let c' = dye q regions codes path_index code c in
        let is_found = dye-IsFound q regions codes path_index code c node ne childless in
        let (e, w) = dye_all-walk (path_index + 1) rest c' is_found.node nes is_found.childless in
        let after = dye_all q regions codes (path_index + 1) rest c' in
        (
          IsExtension-trans c.tree c'.tree after.tree is_found.extension e,
          walk-step after.tree c.tree_node code c'.tree_node rest
                (e.0 c.tree_node code c'.tree_node is_found.found)
              ∙ w,
        )
