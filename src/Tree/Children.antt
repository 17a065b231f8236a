-- ===== src/Tree/Children.antt =====
-- `exists_child` (mcts.c) after an operation on the search tree: which child is found.
use aflnet_legion.Common.{
  ◌⊎◌, inl, inr, Bool-cases, ap, ℕ, ◌≡◌, ◌≢◌, refl, sym, subst, ◌∙◌, true, false, none, some, List,
  [], ◌∷◌, ◌++◌, ◌==◌, arith, ℕ_discrete,
}
use aflnet_legion.States.{has}
use aflnet_legion.Tree.{
  GNodes, NodeColour, TreeNodeData, find_code, Tree, modify, exists_child, append_data,
  new_tree_node_data,
}

pub find_code-agree :
    (d e : ℕ → TreeNodeData) (code : ℕ) (cs : List ℕ)
    → ((c : ℕ) → has cs c ≡ true → (d c).id ≡ (e c).id)
    → find_code d code cs ≡ find_code e code cs
unfolding find_code
find_code-agree d e code [] h = refl
find_code-agree d e code (c ∷ cs) h =
    rw (h c (ground arith), find_code-agree d e code cs (λ x m. h x (ground arith))) refl

find_code-keeps :
    (d : ℕ → TreeNodeData) (code new c : ℕ) (cs : List ℕ)
    → find_code d code cs ≡ some c
    → find_code d code (cs ++ new ∷ []) ≡ some c
unfolding find_code
find_code-keeps d code new c [] h = ground arith
find_code-keeps d code new c (x ∷ cs) h = ground (arith, find_code-keeps d code new c cs)

find_code-last :
    (d : ℕ → TreeNodeData) (code new : ℕ) (cs : List ℕ)
    → find_code d code cs ≡ none
    → (d new).id ≡ code
    → find_code d code (cs ++ new ∷ []) ≡ some new
unfolding find_code
find_code-last d code new [] h e = ground arith
find_code-last d code new (x ∷ cs) h e = ground (arith, find_code-last d code new cs)

find_code-skip :
    (d : ℕ → TreeNodeData) (code new : ℕ) (cs : List ℕ)
    → (d new).id ≢ code
    → find_code d code (cs ++ new ∷ []) ≡ find_code d code cs
unfolding find_code
find_code-skip d code new [] e = ground arith
find_code-skip d code new (x ∷ cs) e = ground (arith, find_code-skip d code new cs e)

pub find_code-has :
    (d : ℕ → TreeNodeData) (code c : ℕ) (cs : List ℕ)
    → find_code d code cs ≡ some c
    → has cs c ≡ true
unfolding find_code
find_code-has d code c [] h = ground arith
find_code-has d code c (x ∷ cs) h = ground (arith, find_code-has d code c cs)

module _ (g : GNodes) where
  open g use {Links, IsNode, children, fresh, fresh_unused, child_node}

  pub node-ne-fresh : (s : Links) (n : ℕ) → IsNode s n → n ≢ fresh s
  node-ne-fresh s n node e = fresh_unused s (subst (IsNode s) e node)

  not_fresh : (s : Links) (n c : ℕ) → has (children s n) c ≡ true → (c == fresh s) ≡ false
  not_fresh s n c h = ground (arith, node-ne-fresh s c (child_node s n c h))

pub no_child : (cs : List ℕ) (c : ℕ) → cs ≡ [] → has cs c ≡ true → ⊥
no_child cs c e h = ground (arith, subst (λ (xs : List ℕ). has xs c ≡ true) e h)

last_child :
    {E : Type 0} (cs : List ℕ) (c new : ℕ)
    → E
    → has (cs ++ new ∷ []) c ≡ true
    → (has cs c ≡ true) ⊎ ((c ≡ new) × E)
last_child [] c new e h = inr (ground arith, e)
last_child (x ∷ cs) c new e h = elim (Bool-cases (x == c)) [
  | inl here ↦ inl (ground arith)
  | inr there ↦ elim (last_child cs c new e (ground arith)) [
    | inl later ↦ inl (ground arith)
    | inr last ↦ inr last
  ]
]

module _ (g : GNodes) where
  open g use {Links, IsNode, children, fresh, append, fresh_leaf, children_at, children_else}

  pub parent_ne_fresh : (s : Links) (m c : ℕ) → has (children s m) c ≡ true → m ≢ fresh s
  parent_ne_fresh s m c h e = no_child (children s m) c (ap (children s) e ∙ fresh_leaf s) h

  pub child_cases :
      (s : Links) (n m c : ℕ)
      → IsNode s n
      → has (children (append s n) m) c ≡ true
      → (has (children s m) c ≡ true) ⊎ ((c ≡ fresh s) × (m ≡ n))
  child_cases s n m c node h = elim (ℕ_discrete n m) [
    | yes e ↦ last_child (children s m) c (fresh s) (sym e) (
        subst (λ (cs : List ℕ). has cs c ≡ true)
          (ap (children (append s n)) (sym e) ∙ children_at s n node ∙ rw e refl) h)
    | no ne ↦ inl (subst (λ (cs : List ℕ). has cs c ≡ true) (children_else s n m ne) h)
  ]

module _ {g : GNodes} where
  open g use {
    Links, IsNode, children, fresh, append, fresh_unused, child_node, fresh_leaf, children_at,
    children_else, append_new, append_keeps,
  }

  -- A change that keeps every id is not seen by the search.
  pub exists_child-modify :
      (t : Tree g) (n : ℕ) (f : TreeNodeData → TreeNodeData)
      → ((d : TreeNodeData) → (f d).id ≡ d.id)
      → (m code : ℕ) → exists_child (modify t n f) m code ≡ exists_child t m code
  unfolding exists_child modify
  exists_child-modify t n f keeps m code =
      find_code-agree (modify t n f).data_of t.data_of code (children t.links m)
        (λ c has_c. ground (arith, keeps (t.data_of n)))

  -- Among the old children of a node, the old search.
  old_children :
      (t : Tree g) (n m code code' : ℕ) (colour : NodeColour) (path : List ℕ)
      → find_code (append_data t n code colour path).data_of code' (children t.links m)
        ≡ exists_child t m code'
  unfolding append_data exists_child
  old_children t n m code code' colour path =
      find_code-agree (append_data t n code colour path).data_of t.data_of code'
        (children t.links m) (λ c has_c. rw (not_fresh g t.links m c has_c) refl)

  exists_child-append_other :
      (t : Tree g) (n m code code' : ℕ) (colour : NodeColour) (path : List ℕ)
      → n ≢ m
      → exists_child (append_data t n code colour path) m code' ≡ exists_child t m code'
  unfolding exists_child append_data
  exists_child-append_other t n m code code' colour path ne =
      rw (children_else t.links n m ne) (old_children t n m code code' colour path)

  new_id :
      (t : Tree g) (n code : ℕ) (colour : NodeColour) (path : List ℕ)
      → ((append_data t n code colour path).data_of (fresh t.links)).id ≡ code
  unfolding append_data new_tree_node_data
  new_id t n code colour path = ground arith

  -- A node that was found before is found after, under every code.
  pub exists_child-append_data :
      (t : Tree g) (n m code code' c : ℕ) (colour : NodeColour) (path : List ℕ)
      → IsNode t.links n
      → exists_child t m code' ≡ some c
      → exists_child (append_data t n code colour path) m code' ≡ some c
  unfolding exists_child append_data
  exists_child-append_data t n m code code' c colour path node h = elim (ℕ_discrete n m) [
    | yes e ↦
        rw (sym e, children_at t.links n node)
          (find_code-keeps (append_data t n code colour path).data_of code' (fresh t.links) c
            (children t.links n) (old_children t n n code code' colour path ∙ rw e h))
    | no ne ↦ exists_child-append_other t n m code code' colour path ne ∙ h
  ]

  -- The new node is found under its code, if none was before.
  pub append_data_found :
      (t : Tree g) (n code : ℕ) (colour : NodeColour) (path : List ℕ)
      → IsNode t.links n
      → exists_child t n code ≡ none
      → exists_child (append_data t n code colour path) n code ≡ some (fresh t.links)
  unfolding exists_child append_data
  append_data_found t n code colour path node h = rw (children_at t.links n node) (
      find_code-last (append_data t n code colour path).data_of code (fresh t.links)
        (children t.links n) (old_children t n n code code colour path ∙ h)
        (new_id t n code colour path))

  -- A search for another code does not see the new node.
  pub append_data_unseen :
      (t : Tree g) (n m code code' : ℕ) (colour : NodeColour) (path : List ℕ)
      → IsNode t.links n
      → code ≢ code'
      → exists_child (append_data t n code colour path) m code' ≡ exists_child t m code'
  unfolding exists_child append_data
  append_data_unseen t n m code code' colour path node ne = elim (ℕ_discrete n m) [
    | yes e ↦
        rw (sym e, children_at t.links n node)
          (find_code-skip (append_data t n code colour path).data_of code' (fresh t.links)
              (children t.links n) (λ same. ne (sym (new_id t n code colour path) ∙ same))
            ∙ old_children t n n code code' colour path)
    | no other ↦ exists_child-append_other t n m code code' colour path other
  ]

  -- The new node has no child.
  pub append_data_leaf :
      (t : Tree g) (n code code' : ℕ) (colour : NodeColour) (path : List ℕ)
      → IsNode t.links n
      → exists_child (append_data t n code colour path) (fresh t.links) code' ≡ none
  unfolding exists_child append_data find_code
  append_data_leaf t n code code' colour path node =
      rw
        (
          children_else t.links n (fresh t.links) (node-ne-fresh g t.links n node),
          fresh_leaf t.links,
        )
        refl
