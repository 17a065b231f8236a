-- ===== src/Tree/Labels.antt =====
-- The ids and the paths of the nodes of the search tree (mcts.c), which the source asserts: a
-- node's path is its parent's with its own id behind, and a simulation has its parent's path.
use aflnet_legion.Common.{
  ℕ, ◌≡◌, ◌≢◌, refl, sym, ap, subst, ◌∙◌, true, false, ◌⊎◌, inl, inr, List, [], ◌∷◌, ◌++◌, arith,
  ℕ_discrete, if◌then◌else◌,
}
use aflnet_legion.States.{has}
use aflnet_legion.Tree.{
  GNodes, NodeColour, is_golden, is_white, golden, TreeNodeData, new_tree_node_data, Tree, modify,
  append_data, append_simulation, append_child, simulation_id, set_simulation_child,
}
use aflnet_legion.Tree.Children.{node-ne-fresh, parent_ne_fresh, child_cases}

-- What a child's data say, given its parent's.
abbrev pub IsLabel : TreeNodeData → TreeNodeData → Type 0
IsLabel p c =
    ((is_golden c.colour ≡ true) × (c.id ≡ simulation_id) × (c.path ≡ p.path))
    ⊎ ((is_golden c.colour ≡ false) × (c.path ≡ p.path ++ c.id ∷ []))

-- The data that labels depend on are the same.
abbrev pub IsSameLabel : TreeNodeData → TreeNodeData → Type 0
IsSameLabel d e = (e.id ≡ d.id) × (e.path ≡ d.path) × (is_golden e.colour ≡ is_golden d.colour)

same-IsLabel :
    (p c p' c' : TreeNodeData) → IsSameLabel p p' → IsSameLabel c c' → IsLabel p c → IsLabel p' c'
same-IsLabel p c p' c' (p_id, p_path, p_golden) (c_id, c_path, c_golden) (inl (g, i, e)) =
    inl (c_golden ∙ g, c_id ∙ i, c_path ∙ e ∙ sym p_path)
same-IsLabel p c p' c' (p_id, p_path, p_golden) (c_id, c_path, c_golden) (inr (g, e)) =
    inr (c_golden ∙ g, c_path ∙ e ∙ rw (p_path, c_id) refl)

module _ {g : GNodes} where
  open g use {
    Links, IsNode, children, fresh, append, child_node, children_at, children_else, fresh_leaf,
    append_keeps, append_new, fresh_unused,
  }

  abbrev pub IsLabelled : Tree g → Type 0
  IsLabelled t = (n c : ℕ) → has (children t.links n) c ≡ true → IsLabel (t.data_of n) (t.data_of c)

  -- Nodes stay nodes and keep their labels.
  abbrev pub IsSteady : Tree g → Tree g → Type 0
  IsSteady t t' =
      (x : ℕ) → IsNode t.links x → IsNode t'.links x × IsSameLabel (t.data_of x) (t'.data_of x)

  pub same-IsSteady : (t : Tree g) → IsSteady t t
  same-IsSteady t x node = (node, (refl, refl, refl))

  pub IsSteady-trans : (t u v : Tree g) → IsSteady t u → IsSteady u v → IsSteady t v
  IsSteady-trans t u v first second x node =
      let (node', (i, p, c)) = first x node in
      let (node'', (i', p', c')) = second x node' in (node'', (i' ∙ i, p' ∙ p, c' ∙ c))

  modify_here :
      (t : Tree g) (n x : ℕ) (f : TreeNodeData → TreeNodeData)
      → x ≡ n
      → (modify t n f).data_of x ≡ f (t.data_of n)
  unfolding modify
  modify_here t n x f e = ground arith

  modify_there :
      (t : Tree g) (n x : ℕ) (f : TreeNodeData → TreeNodeData)
      → x ≢ n
      → (modify t n f).data_of x ≡ t.data_of x
  unfolding modify
  modify_there t n x f ne = ground arith

  modify_same :
      (t : Tree g) (n : ℕ) (f : TreeNodeData → TreeNodeData) (x : ℕ)
      → IsSameLabel (t.data_of n) (f (t.data_of n))
      → IsSameLabel (t.data_of x) ((modify t n f).data_of x)
  modify_same t n f x same = elim (ℕ_discrete x n) [
    | yes e ↦
        subst (λ (d : TreeNodeData). IsSameLabel (t.data_of x) d) (sym (modify_here t n x f e))
          (subst (λ (y : ℕ). IsSameLabel (t.data_of y) (f (t.data_of n))) (sym e) same)
    | no ne ↦
        subst (λ (d : TreeNodeData). IsSameLabel (t.data_of x) d) (sym (modify_there t n x f ne))
          (refl, refl, refl)
  ]

  pub modify-IsSteady :
      (t : Tree g) (n : ℕ) (f : TreeNodeData → TreeNodeData)
      → IsSameLabel (t.data_of n) (f (t.data_of n))
      → IsSteady t (modify t n f) × (IsLabelled t → IsLabelled (modify t n f))
  unfolding modify
  modify-IsSteady t n f same = (
    λ x node. (node, modify_same t n f x same),
    λ labelled m c h.
        same-IsLabel (t.data_of m) (t.data_of c) ((modify t n f).data_of m)
          ((modify t n f).data_of c) (modify_same t n f m same) (modify_same t n f c same)
          (labelled m c h),
  )

  append_data_new :
      (t : Tree g) (n code : ℕ) (colour : NodeColour) (path : List ℕ)
      → (append_data t n code colour path).data_of (fresh t.links)
        ≡ new_tree_node_data code colour path
  unfolding append_data
  append_data_new t n code colour path = ground arith

  append_data_old :
      (t : Tree g) (n code x : ℕ) (colour : NodeColour) (path : List ℕ)
      → IsNode t.links x
      → (append_data t n code colour path).data_of x ≡ t.data_of x
  unfolding append_data
  append_data_old t n code x colour path node = ground (arith, node-ne-fresh g t.links x node)

  append_data_other :
      (t : Tree g) (n code x : ℕ) (colour : NodeColour) (path : List ℕ)
      → x ≢ fresh t.links
      → (append_data t n code colour path).data_of x ≡ t.data_of x
  unfolding append_data
  append_data_other t n code x colour path ne = ground arith

  -- A new node with a label of its parent.
  pub append_data-IsSteady :
      (t : Tree g) (n code : ℕ) (colour : NodeColour) (path : List ℕ)
      → IsNode t.links n
      → IsLabel (t.data_of n) (new_tree_node_data code colour path)
      → let t' = append_data t n code colour path in IsSteady t t' × (IsLabelled t → IsLabelled t')
  unfolding append_data
  append_data-IsSteady t n code colour path node label = (
    λ x is_node. (
      append_keeps t.links n x is_node,
      subst (λ (d : TreeNodeData). IsSameLabel (t.data_of x) d)
          (sym (append_data_old t n code x colour path is_node)) (refl, refl, refl),
    ),
    λ labelled m c h.
        let new = new_tree_node_data code colour path in
        elim (child_cases g t.links n m c node h) [
          | inl before ↦
              subst (λ (d : TreeNodeData). IsLabel d ((append_data t n code colour path).data_of c))
                (sym
                  (append_data_other t n code m colour path (parent_ne_fresh g t.links m c before)))
                (subst (λ (d : TreeNodeData). IsLabel (t.data_of m) d)
                  (sym (append_data_old t n code c colour path (child_node t.links m c before)))
                  (labelled m c before))
          | inr (is_new, is_parent) ↦
              subst
                (λ (x : ℕ).
                  IsLabel ((append_data t n code colour path).data_of m)
                    ((append_data t n code colour path).data_of x))
                (sym is_new)
                (subst
                  (λ (x : ℕ).
                    IsLabel ((append_data t n code colour path).data_of x)
                      ((append_data t n code colour path).data_of (fresh t.links)))
                  (sym is_parent)
                  (subst
                    (λ (d : TreeNodeData). IsLabel ((append_data t n code colour path).data_of n) d)
                    (sym (append_data_new t n code colour path))
                    (subst (λ (d : TreeNodeData). IsLabel d new)
                      (sym (append_data_old t n code n colour path node)) label)))
        ],
  )

  -- The child that `append_child` makes is labelled, and so is its simulation.
  pub append_simulation-IsSteady :
      (t : Tree g) (n : ℕ) (path : List ℕ)
      → IsNode t.links n
      → path ≡ (t.data_of n).path
      → let t' = append_simulation t n path in IsSteady t t' × (IsLabelled t → IsLabelled t')
  unfolding append_simulation
  append_simulation-IsSteady t n path node e =
      let grown = append_data t n simulation_id golden path in
      let (steady, label) =
        append_data-IsSteady t n simulation_id golden path node (inl (refl, refl, e)) in
      let (steady', label') =
        modify-IsSteady grown n (set_simulation_child (fresh t.links)) (refl, refl, refl) in
      (
        IsSteady-trans t grown (append_simulation t n path) steady steady',
        λ labelled. label' (label labelled),
      )

  -- A labelled tree with one node more, which has this path.
  pub record IsGrown (t t' : Tree g) (c : ℕ) (path : List ℕ) : Type 0 where
    pub steady : IsSteady t t'
    pub labels : IsLabelled t → IsLabelled t'
    pub node : IsNode t'.links c
    pub has_path : (t'.data_of c).path ≡ path

  pub IsGrown-trans :
      (t u v : Tree g) (c : ℕ) (path : List ℕ)
      → IsGrown t u c path
      → IsSteady u v
      → (IsLabelled u → IsLabelled v)
      → IsGrown t v c path
  IsGrown-trans t u v c path grown steady labels =
      let (node, (same_id, same_path, same_golden)) = steady c grown.node in
      record {
        steady = IsSteady-trans t u v grown.steady steady;
        labels = λ labelled. labels (grown.labels labelled);
        node = node;
        has_path = same_path ∙ grown.has_path;
      }

  append_data-IsGrown :
      (t : Tree g) (n code : ℕ) (colour : NodeColour) (path : List ℕ)
      → IsNode t.links n
      → is_golden colour ≡ false
      → path ≡ (t.data_of n).path ++ code ∷ []
      → IsGrown t (append_data t n code colour path) (fresh t.links) path
  unfolding append_data
  append_data-IsGrown t n code colour path node plain e =
      let (steady, labels) = append_data-IsSteady t n code colour path node (inr (plain, e)) in
      record {
        steady = steady;
        labels = labels;
        node = append_new t.links n;
        has_path = ap (λ (d : TreeNodeData). d.path) (append_data_new t n code colour path);
      }

  pub append_child-IsGrown :
      (t : Tree g) (n code : ℕ) (colour : NodeColour) (path : List ℕ)
      → IsNode t.links n
      → is_golden colour ≡ false
      → path ≡ (t.data_of n).path ++ code ∷ []
      → IsGrown t (append_child t n code colour path).0 (append_child t n code colour path).1 path
  unfolding append_child
  append_child-IsGrown t n code colour path node plain e =
      let child = fresh t.links in
      let bare = append_data t n code colour path in
      let grown = append_data-IsGrown t n code colour path node plain e in
      let with_simulation = append_simulation bare child path in
      let (steady, labels) =
        append_simulation-IsSteady bare child path grown.node (sym grown.has_path) in
      elim (is_white colour) as (λ b. IsGrown t (if b then with_simulation else bare) child path) [
        | true ↦ IsGrown-trans t bare with_simulation child path grown steady labels
        | false ↦ grown
      ]
