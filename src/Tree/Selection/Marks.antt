-- ===== src/Tree/Selection/Marks.antt =====
-- The marks of `select_tree_node` (mcts.c): each new one leaves less to explore.
use aflnet_legion.Common.{
  ℕ, zero, suc, ◌+◌, ◌*◌, ◌≤◌, ◌<◌, ◌≡◌, ◌≢◌, refl, sym, ap, subst, ◌∙◌, Bool, true, false, ◌&&◌,
  Option, none, some, List, [], ◌∷◌, ◌==◌, if◌then◌else◌, length, arith, Bool-cases, inl, inr,
  ℕ_discrete,
}
use aflnet_legion.States.{has}
use aflnet_legion.Tree.{GNodes, TreeNodeData, is_golden, is_black, Tree, modify, set_fully_explored}
use aflnet_legion.Tree.Selection.{Scores, tree_node_score, explored_below, is_fully_explored}
use aflnet_legion.Tree.Selection.Descent.{count_node, has_black_parent}

less_weight : (a b k : ℕ) → a < b → a * k + k ≤ b * k
less_weight zero zero k h = absurd (omega (arith, h))
less_weight zero (suc b) k h = omega arith
less_weight (suc a) zero k h = absurd (omega (arith, h))
less_weight (suc a) (suc b) k h = omega (arith, less_weight a b k (omega arith))

no_more_weight : (a b k : ℕ) → a ≤ b → a * k ≤ b * k
no_more_weight zero b k h = omega arith
no_more_weight (suc a) zero k h = absurd (omega (arith, h))
no_more_weight (suc a) (suc b) k h = omega (arith, no_more_weight a b k (omega arith))

-- How many of the nodes are not marked as fully explored.
abbrev pub open_count : (ℕ → TreeNodeData) → List ℕ → ℕ
open_count d [] = 0
open_count d (x ∷ xs) = (if (d x).fully_explored then 0 else 1) + open_count d xs

fewer_open :
    (d e : ℕ → TreeNodeData) (xs : List ℕ)
    → ((x : ℕ) → (d x).fully_explored ≡ true → (e x).fully_explored ≡ true)
    → open_count e xs ≤ open_count d xs
fewer_open d e [] h = omega arith
fewer_open d e (x ∷ xs) h = ground (arith, fewer_open d e xs h, h x)

one_fewer_open :
    (d e : ℕ → TreeNodeData) (xs : List ℕ) (p : ℕ)
    → ((x : ℕ) → (d x).fully_explored ≡ true → (e x).fully_explored ≡ true)
    → has xs p ≡ true
    → (d p).fully_explored ≡ false
    → (e p).fully_explored ≡ true
    → open_count e xs < open_count d xs
one_fewer_open d e [] p h listed was is = absurd (ground (arith, listed))
one_fewer_open d e (x ∷ xs) p h listed was is = elim (ℕ_discrete x p) [
  | yes same ↦
      let now = subst (λ (y : ℕ). (e y).fully_explored ≡ true) (sym same) is in
      let before = subst (λ (y : ℕ). (d y).fully_explored ≡ false) (sym same) was in
      ground (arith, now, before, fewer_open d e xs h)
  | no other ↦
      let there = one_fewer_open d e xs p h (ground (arith, listed, other)) was is in
      ground (arith, there, h x)
]

module _ (g : GNodes) where
  open g use {Links, children, parent}

  -- A tree of finite height whose nodes with children are listed.
  pub record IsFinite (s : Links) : Type 0 where
    pub bound : ℕ
    pub height : ℕ → ℕ
    pub depth : ℕ → ℕ
    pub parents : List ℕ
    pub height_le : (n : ℕ) → height n ≤ bound
    pub depth_le : (n : ℕ) → depth n ≤ bound
    pub child_lower : (n c : ℕ) → has (children s n) c ≡ true → height c < height n
    pub parent_higher : (n p : ℕ) → parent s n ≡ some p → depth p < depth n
    pub is_listed : (n p : ℕ) → parent s n ≡ some p → has parents p ≡ true

module _ {g : GNodes} (t : Tree g) (c : ℕ) (change : TreeNodeData → TreeNodeData) where
  pub modify_here : (modify t c change).data_of c ≡ change (t.data_of c)
  unfolding modify
  modify_here = ground arith

  pub modify_other : (x : ℕ) → x ≢ c → (modify t c change).data_of x ≡ t.data_of x
  unfolding modify
  modify_other x ne = ground arith

  pub modify-field :
      {A : Type 0} (field : TreeNodeData → A) (x : ℕ)
      → ((d : TreeNodeData) → field (change d) ≡ field d)
      → field ((modify t c change).data_of x) ≡ field (t.data_of x)
  modify-field field x same = elim (ℕ_discrete x c) [
    | yes here ↦
        subst (λ (y : ℕ). field ((modify t c change).data_of y) ≡ field (t.data_of y)) (sym here)
          (ap field modify_here ∙ same (t.data_of c))
    | no other ↦ ap field (modify_other x other)
  ]

module _ {g : GNodes} where
  open g use {Links, parent}

  abbrev pub mark : Tree g → ℕ → Tree g
  mark t p = modify t p (set_fully_explored true)

  marked_here : (t : Tree g) (p : ℕ) → ((mark t p).data_of p).fully_explored ≡ true
  marked_here t p =
      ap (λ (d : TreeNodeData). d.fully_explored) (modify_here t p (set_fully_explored true))

  marked_keeps :
      (t : Tree g) (p x : ℕ)
      → (t.data_of x).fully_explored ≡ true
      → ((mark t p).data_of x).fully_explored ≡ true
  marked_keeps t p x h = elim (ℕ_discrete x p) [
    | yes same ↦
        subst (λ (y : ℕ). ((mark t p).data_of y).fully_explored ≡ true) (sym same) (marked_here t p)
    | no other ↦
        ap (λ (d : TreeNodeData). d.fully_explored)
          (modify_other t p (set_fully_explored true) x other)
        ∙ h
  ]

  module _ {links : Links} (s : IsFinite g links) where
    open s use {bound, height, depth, parents}

    -- The rounds that the marks still to be made may take.
    abbrev pub weight : Tree g → ℕ
    weight t = open_count t.data_of parents * (3 * bound + 3)

    pub counted_weight : (t : Tree g) (c : ℕ) → weight (modify t c count_node) ≤ weight t
    counted_weight t c =
        let u = modify t c count_node in
        no_more_weight (open_count u.data_of parents) (open_count t.data_of parents) (3 * bound + 3)
          (fewer_open t.data_of u.data_of parents
            (λ x h. modify-field t c count_node (λ d. d.fully_explored) x (λ d. refl) ∙ h))

    pub marked_weight : (t : Tree g) (p : ℕ) → weight (mark t p) ≤ weight t
    marked_weight t p =
        no_more_weight (open_count (mark t p).data_of parents) (open_count t.data_of parents)
          (3 * bound + 3) (fewer_open t.data_of (mark t p).data_of parents (marked_keeps t p))

    pub first_mark :
        (t : Tree g) (n p : ℕ)
        → parent links n ≡ some p
        → (t.data_of p).fully_explored ≡ false
        → weight (mark t p) + (3 * bound + 3) ≤ weight t
    first_mark t n p e open_still =
        less_weight (open_count (mark t p).data_of parents) (open_count t.data_of parents)
          (3 * bound + 3)
          (one_fewer_open t.data_of (mark t p).data_of parents p (marked_keeps t p)
            (s.is_listed n p e) open_still (marked_here t p))

module _ (f : Scores) {g : GNodes} where
  open f use {less, minus_infinity, is_minus_infinity}
  open g use {children, parent}

  pub scored_open :
      (t : Tree g) (n : ℕ)
      → less minus_infinity (tree_node_score f t n) ≡ true
      → (t.data_of n).fully_explored ≡ false
  unfolding tree_node_score
  scored_open t n scored = elim (Bool-cases (t.data_of n).fully_explored) [
    | inl explored ↦ absurd (
        ground (
          arith,
          scored,
          subst
              (λ (b : Bool).
                less minus_infinity (
                  if b
                  then minus_infinity
                  else if is_golden (t.data_of n).colour && length (t.data_of n).seeds == 0
                  then minus_infinity
                  else f.node_uct (t.data_of n).selected (t.data_of n).discovered
                      (elim (parent t.links n) [
                        | none ↦ none
                        | some p ↦ some (t.data_of p).selected
                      ]))
                ≡ false)
              (sym explored) (f.less_bottom minus_infinity),
        ))
    | inr open_still ↦ open_still
  ]

  pub no_bottom :
      (t : Tree g) (n : ℕ)
      → is_minus_infinity (tree_node_score f t n) ≡ false
      → less minus_infinity (tree_node_score f t n) ≡ true
  no_bottom t n h = ground (arith, h, f.bottom_iff (tree_node_score f t n))

  -- A black node whose one child has no score.
  pub below_bottom :
      (t : Tree g) (n : ℕ) (cs : List ℕ) (explored : Bool)
      → has cs n ≡ true
      → is_minus_infinity (tree_node_score f t n) ≡ true
      → explored_below f t cs ≡ some explored
      → explored ≡ true
  unfolding explored_below
  below_bottom t n [] explored member bottom e = absurd (ground (arith, member))
  below_bottom t n (c ∷ []) explored member bottom e = elim (ℕ_discrete c n) [
    | yes same ↦
        let at_c =
          subst (λ (x : ℕ). is_minus_infinity (tree_node_score f t x) ≡ true) (sym same) bottom in
        ground (arith, at_c, e)
    | no other ↦ absurd (ground (arith, member, other))
  ]
  below_bottom t n (c ∷ d ∷ cs) explored member bottom e = absurd (ground (arith, e))

  pub black_below :
      (t : Tree g) (p : ℕ)
      → (t.data_of p).fully_explored ≡ false
      → is_black (t.data_of p).colour ≡ true
      → is_fully_explored f t p ≡ explored_below f t (children t.links p)
  unfolding is_fully_explored
  black_below t p open_still black = rw (is_fully_explored, open_still, black) refl

  pub black_parent :
      (t : Tree g) (p c : ℕ)
      → parent t.links c ≡ some p
      → has_black_parent f t c ≡ true
      → is_black (t.data_of p).colour ≡ true
  black_parent t p c e h =
      subst
        (λ (o : Option ℕ).
          (elim o [ none ↦ false | some q ↦ is_black (t.data_of q).colour ]) ≡ true)
        e h
