-- ===== src/Tree/Kept.antt =====
-- What every operation on the search tree (mcts.c) keeps.
use aflnet_legion.Common.{
  ℕ, ◌≡◌, ◌≢◌, refl, ◌∙◌, Bool, true, false, none, some, List, if◌then◌else◌,
}
use aflnet_legion.Tree.{
  GNodes, NodeColour, TreeNodeData, Tree, modify, exists_child, append_data, append_simulation,
  append_child, simulation_id, is_white, golden, set_simulation_child,
}
use aflnet_legion.Tree.Children.{
  exists_child-modify, exists_child-append_data, append_data_found, append_data_unseen,
  append_data_leaf,
}

module _ {g : GNodes} where
  open g use {IsNode, fresh, append_new, append_keeps}

  -- What every operation keeps: the nodes, and which node is found as whose child.
  abbrev pub IsExtension : Tree g → Tree g → Type 0
  IsExtension t t' =
      ((m code c : ℕ) → exists_child t m code ≡ some c → exists_child t' m code ≡ some c)
      × ((m : ℕ) → IsNode t.links m → IsNode t'.links m)

  -- What all but the new response nodes keep.
  abbrev pub IsSame : Tree g → Tree g → Type 0
  IsSame t t' = (m code : ℕ) → simulation_id ≢ code → exists_child t' m code ≡ exists_child t m code

  pub IsExtension-trans :
      (t t' t'' : Tree g) → IsExtension t t' → IsExtension t' t'' → IsExtension t t''
  IsExtension-trans t t' t'' (find, keep) (find', keep') =
      (λ m code c h. find' m code c (find m code c h), λ m node. keep' m (keep m node))

  pub modify-IsExtension :
      (t : Tree g) (n : ℕ) (f : TreeNodeData → TreeNodeData)
      → ((d : TreeNodeData) → (f d).id ≡ d.id)
      → IsExtension t (modify t n f)
  unfolding modify
  modify-IsExtension t n f keeps =
      (λ m code c h. exists_child-modify t n f keeps m code ∙ h, λ m node. node)

  pub append_data-IsExtension :
      (t : Tree g) (n code : ℕ) (colour : NodeColour) (path : List ℕ)
      → IsNode t.links n
      → IsExtension t (append_data t n code colour path)
  unfolding append_data
  append_data-IsExtension t n code colour path node = (
    λ m code' c h. exists_child-append_data t n m code code' c colour path node h,
    λ m is_node. append_keeps t.links n m is_node,
  )

  pub append_simulation-IsExtension :
      (t : Tree g) (n : ℕ) (path : List ℕ)
      → IsNode t.links n
      → IsExtension t (append_simulation t n path)
  unfolding append_simulation
  append_simulation-IsExtension t n path node =
      IsExtension-trans t (append_data t n simulation_id golden path) (append_simulation t n path)
        (append_data-IsExtension t n simulation_id golden path node)
        (modify-IsExtension (append_data t n simulation_id golden path) n
          (set_simulation_child (fresh t.links)) (λ d. refl))

  pub append_simulation-IsSame :
      (t : Tree g) (n : ℕ) (path : List ℕ)
      → IsNode t.links n
      → IsSame t (append_simulation t n path)
  unfolding append_simulation
  append_simulation-IsSame t n path node m code ne =
      exists_child-modify (append_data t n simulation_id golden path) n
        (set_simulation_child (fresh t.links)) (λ d. refl) m code
      ∙ append_data_unseen t n m simulation_id code golden path node ne

  pub modify-IsSame :
      (t : Tree g) (n : ℕ) (f : TreeNodeData → TreeNodeData)
      → ((d : TreeNodeData) → (f d).id ≡ d.id)
      → IsSame t (modify t n f)
  modify-IsSame t n f keeps m code ne = exists_child-modify t n f keeps m code

  -- In an extension the node is found as the child, and if it is new it has no child but its
  -- simulation.
  pub record IsFound (t : Tree g) (n code : ℕ) (new : Bool) (t' : Tree g) (c : ℕ) : Type 0 where
    pub extension : IsExtension t t'
    pub found : exists_child t' n code ≡ some c
    pub node : IsNode t'.links c
    pub childless :
        new ≡ true → (code' : ℕ) → simulation_id ≢ code' → exists_child t' c code' ≡ none

  pub IsFound-trans :
      (t t' t'' : Tree g) (n code c : ℕ) (new : Bool)
      → IsFound t n code new t' c
      → IsExtension t' t''
      → IsSame t' t''
      → IsFound t n code new t'' c
  IsFound-trans t t' t'' n code c new f (find, keep) same = record {
    extension = IsExtension-trans t t' t'' f.extension (find, keep);
    found = find n code c f.found;
    node = keep c f.node;
    childless = λ is_new code' ne. same c code' ne ∙ f.childless is_new code' ne;
  }

  append_data-IsFound :
      (t : Tree g) (n code : ℕ) (colour : NodeColour) (path : List ℕ)
      → IsNode t.links n
      → exists_child t n code ≡ none
      → IsFound t n code true (append_data t n code colour path) (fresh t.links)
  unfolding append_data
  append_data-IsFound t n code colour path node absent = record {
    extension = append_data-IsExtension t n code colour path node;
    found = append_data_found t n code colour path node absent;
    node = append_new t.links n;
    childless = λ _ code' ne. append_data_leaf t n code code' colour path node;
  }

  pub append_child-IsFound :
      (t : Tree g) (n code : ℕ) (colour : NodeColour) (path : List ℕ)
      → IsNode t.links n
      → exists_child t n code ≡ none
      → IsFound t n code true
          (append_child t n code colour path).0
          (append_child t n code colour path).1
  unfolding append_child
  append_child-IsFound t n code colour path node absent =
      let grown = append_data t n code colour path in
      let is_found = append_data-IsFound t n code colour path node absent in
      elim (is_white colour)
        as (λ b.
          IsFound t n code true (if b then append_simulation grown (fresh t.links) path else grown)
            (fresh t.links)) [
              | true ↦
                  IsFound-trans t grown (append_simulation grown (fresh t.links) path) n code
                    (fresh t.links) true is_found
                    (append_simulation-IsExtension grown (fresh t.links) path is_found.node)
                    (append_simulation-IsSame grown (fresh t.links) path is_found.node)
              | false ↦ is_found
            ]

  abbrev pub IsCovered : Tree g → Tree g → Type 0
  IsCovered t t' = IsExtension t t' × IsSame t t'

  pub same-IsCovered : (t : Tree g) → IsCovered t t
  same-IsCovered t = ((λ m code c h. h, λ m is_node. is_node), λ m code ne. refl)

  pub IsCovered-trans : (t t' t'' : Tree g) → IsCovered t t' → IsCovered t' t'' → IsCovered t t''
  IsCovered-trans t t' t'' (e, s) (e', s') =
      (IsExtension-trans t t' t'' e e', λ m code ne. s' m code ne ∙ s m code ne)

  pub modify-IsCovered :
      (t : Tree g) (n : ℕ) (f : TreeNodeData → TreeNodeData)
      → ((d : TreeNodeData) → (f d).id ≡ d.id)
      → IsCovered t (modify t n f)
  modify-IsCovered t n f keeps = (modify-IsExtension t n f keeps, modify-IsSame t n f keeps)

  pub if-IsCovered :
      (t u v : Tree g) (b : Bool) → IsCovered t u → IsCovered t v → IsCovered t (if b then u else v)
  if-IsCovered t u v true in_u in_v = in_u
  if-IsCovered t u v false in_u in_v = in_v
