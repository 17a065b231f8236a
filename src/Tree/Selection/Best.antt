-- ===== src/Tree/Selection/Best.antt =====
-- `best_child` and `best_seed` (mcts.c): the winner has a score that no other exceeds.
use aflnet_legion.Common.{
  ℕ, zero, suc, ◌+◌, ◌≤◌, ◌<◌, ◌≡◌, refl, sym, ap, subst, ◌∙◌, ◌⊎◌, inl, inr, Bool, true, false,
  Option, none, some, List, [], ◌∷◌, ◌++◌, ◌==◌, arith, if◌then◌else◌, length, length-append,
  append_nil, append_next, get_elem?-append, get_elem?, map, Bool-cases,
}
use aflnet_legion.States.{has}
use aflnet_legion.Tree.{GNodes, SeedInfo, Tree}
use aflnet_legion.Tree.Selection.{
  Scores, Ties, tie, tie_all, best_index, best_of, tree_node_score, best_child, seed_score,
  best_seed,
}

abbrev pub All {ℓ} : {A : Type ℓ} → (A → Type 0) → List A → Type 0
All P [] = Unit {0}
All P (x ∷ xs) = P x × All P xs

All-append {ℓ} :
    {A : Type ℓ} (P : A → Type 0) (xs : List A) (y : A) → All P xs → P y → All P (xs ++ y ∷ [])
All-append P [] y all p = (p, tt)
All-append P (x ∷ xs) y (px, all) p = (px, All-append P xs y all p)

All-map {ℓ} :
    {A : Type ℓ} (P Q : A → Type 0) (xs : List A) → ((x : A) → P x → Q x) → All P xs → All Q xs
All-map P Q [] f all = tt
All-map P Q (x ∷ xs) f (p, all) = (f x p, All-map P Q xs f all)

All-get {ℓ} :
    {A : Type ℓ} (P : A → Type 0) (xs : List A) (i : ℕ)
    → All P xs
    → i < length xs
    → (x : A) × (get_elem? xs i ≡ some x) × P x
All-get P [] i all h = absurd (omega arith)
All-get P (x ∷ xs) zero (p, all) h = (x, refl, p)
All-get P (x ∷ xs) (suc i) (p, all) h = All-get P xs i all (omega arith)

choose_then {ℓ} : {A : Type ℓ} {x : A} {b : Bool} (y : A) → b ≡ true → (if b then x else y) ≡ x
choose_then y e = rw e refl

choose_else {ℓ} : {A : Type ℓ} {y : A} {b : Bool} (x : A) → b ≡ false → (if b then x else y) ≡ y
choose_else x e = rw e refl

-- The element whose image stands at the index of a mapped list.
get_elem?-map {ℓ κ} :
    {A : Type ℓ} {B : Type κ} (h : A → B) (xs : List A) (i : ℕ) (b : B)
    → get_elem? (map h xs) i ≡ some b
    → (a : A) × (get_elem? xs i ≡ some a) × (b ≡ h a)
get_elem?-map h [] i b e = absurd (ground (arith, e))
get_elem?-map h (x ∷ xs) zero b e = (x, refl, sym (ap (λ o. elim o [ none ↦ h x | some a ↦ a ]) e))
get_elem?-map h (x ∷ xs) (suc i) b e = get_elem?-map h xs i b e

All-unmap {ℓ κ} :
    {A : Type ℓ} {B : Type κ} (P : B → Type 0) (h : A → B) (xs : List A)
    → All P (map h xs)
    → All (λ x. P (h x)) xs
All-unmap P h [] all = tt
All-unmap P h (x ∷ xs) (p, all) = (p, All-unmap P h xs all)

get_elem?-has : (xs : List ℕ) (i c : ℕ) → get_elem? xs i ≡ some c → has xs c ≡ true
get_elem?-has [] i c e = ground (arith, e)
get_elem?-has (x ∷ xs) zero c e = ground (arith, e)
get_elem?-has (x ∷ xs) (suc i) c e = ground (arith, get_elem?-has xs i c e)

winner :
    {o : Option ℕ} (nodes : List ℕ) (i c : ℕ)
    → o ≡ some i
    → get_elem? nodes i ≡ some c
    → elim o [ none ↦ none | some k ↦ get_elem? nodes k ] ≡ some c
winner nodes i c e at = rw e at

still_some : {n : ℕ} {b : Bool} → b ≡ true → (1 ≤ n) ⊎ (b ≡ false) → 1 ≤ n
still_some e (inl h) = h
still_some e (inr h) = absurd (ground (arith, e, h))

same_child : (d c : ℕ) → some d ≡ some c → d ≡ c
same_child d c e = ground (arith, e)

module _ (f : Scores) where
  open f use {Score, less, minus_infinity, draw, draw_lt, less_asym, less_chain, less_bottom}

  less_self : (a : Score) → less a a ≡ false
  less_self a = elim (Bool-cases (less a a)) [ inl e ↦ less_asym a a e | inr e ↦ e ]

  -- No score of the list exceeds the one at the index.
  abbrev pub IsBest : List Score → ℕ → Type 0
  IsBest scores i = (s : Score) × (get_elem? scores i ≡ some s) × All (λ x. less s x ≡ false) scores

  -- The tie is among all scores, and no less than the maximum.
  abbrev IsTie : List Score → Score → ℕ → Type 0
  IsTie all best i = (s : Score) × (get_elem? all i ≡ some s) × (less s best ≡ false)

  record IsSearch (all done : List Score) (t : Ties f) : Type 0 where
    highest : All (λ x. less t.max_score x ≡ false) done
    tied : All (IsTie all t.max_score) t.ties

  kept_ties :
      (b : Bool) (all : List Score) (best score : Score) (ties : List ℕ)
      → less best score ≡ b
      → All (IsTie all best) ties
      → All (IsTie all score) (if b then [] else ties)
  kept_ties true all best score ties e tied = tt
  kept_ties false all best score ties e tied =
      All-map (IsTie all best) (IsTie all score) ties
        (λ i (s, at, le). (s, at, less_chain s best score le e)) tied

  tie-IsSearch :
      (all done : List Score) (index : ℕ) (score : Score) (t : Ties f)
      → get_elem? all index ≡ some score
      → IsSearch all done t
      → let t' = tie f index score t in IsSearch all (done ++ score ∷ []) t'
  unfolding tie
  tie-IsSearch all done index score t at search = elim (Bool-cases (less score t.max_score)) [
    | inl lower ↦
        rw (lower, tie)
          record {
            highest =
                All-append (λ (x : Score). less t.max_score x ≡ false) done score search.highest
                  (less_asym score t.max_score lower);
            tied = search.tied;
          }
    | inr higher ↦
        rw (higher, tie)
          record {
            highest =
                All-append (λ (x : Score). less score x ≡ false) done score
                  (All-map (λ (x : Score). less t.max_score x ≡ false)
                    (λ (x : Score). less score x ≡ false) done
                    (λ x le. less_chain score t.max_score x higher le) search.highest)
                  (less_self score);
            tied =
                All-append (IsTie all score) (if less t.max_score score then [] else t.ties) index
                  (kept_ties (less t.max_score score) all t.max_score score t.ties refl search.tied)
                  (score, at, less_self score);
          }
  ]

  tie_all-IsSearch :
      (all rest done : List Score) (index : ℕ) (t : Ties f)
      → all ≡ done ++ rest
      → index ≡ length done
      → IsSearch all done t
      → IsSearch all all (tie_all f index rest t)
  unfolding tie_all
  tie_all-IsSearch all [] done index t split at search =
      subst (λ (xs : List Score). IsSearch all xs t) (sym (split ∙ append_nil done)) search
  tie_all-IsSearch all (score ∷ rest) done index t split at search =
      tie_all-IsSearch all rest (done ++ score ∷ []) (index + 1) (tie f index score t)
        (split ∙ append_next done rest score) (omega (arith, at, length-append done (score ∷ [])))
        (tie-IsSearch all done index score t (rw (split, at) (get_elem?-append done rest score))
          search)

  -- After a round there is a tie.
  tie-some :
      (index : ℕ) (score : Score) (t : Ties f)
      → (1 ≤ length t.ties) ⊎ (less score t.max_score ≡ false)
      → 1 ≤ length (tie f index score t).ties
  unfolding tie
  tie-some index score t before = elim (Bool-cases (less score t.max_score)) [
    | inl lower ↦ rw (lower, tie) (still_some lower before)
    | inr higher ↦
        rw (higher, tie)
          (omega
            (arith, length-append (if less t.max_score score then [] else t.ties) (index ∷ [])))
  ]

  tie_all-some :
      (rest : List Score) (index : ℕ) (t : Ties f)
      → 1 ≤ length t.ties
      → 1 ≤ length (tie_all f index rest t).ties
  unfolding tie_all
  tie_all-some [] index t h = h
  tie_all-some (score ∷ rest) index t h =
      tie_all-some rest (index + 1) (tie f index score t) (tie-some index score t (inl h))

  -- A search over some scores has a tie, and every tie is best.
  ties-IsBest :
      (all : List Score) (t : Ties f) (k : ℕ)
      → IsSearch all all t
      → k < length t.ties
      → (i : ℕ) × (get_elem? t.ties k ≡ some i) × IsBest all i
  ties-IsBest all t k search h =
      let (i, at, (s, is_s, le)) = All-get (IsTie all t.max_score) t.ties k search.tied h in
      (
        i,
        at,
        (
          s,
          is_s,
          All-map (λ (x : Score). less t.max_score x ≡ false) (λ (x : Score). less s x ≡ false) all
              (λ x higher. less_chain s t.max_score x le higher) search.highest,
        ),
      )

  best_index-IsBest :
      (score : Score) (scores : List Score)
      → (i : ℕ) × (best_index f (score ∷ scores) ≡ some i) × IsBest (score ∷ scores) i
  unfolding best_index tie_all
  best_index-IsBest score [] = (0, refl, (score, refl, (less_self score, tt)))
  best_index-IsBest score (second ∷ scores) =
      let all = score ∷ second ∷ scores in
      let start : Ties f = record { max_score = minus_infinity; ties = [] } in
      let t = tie_all f 0 all start in
      let search =
        tie_all-IsSearch all all [] 0 start refl refl (record { highest = tt; tied = tt }) in
      let one =
        tie_all-some (second ∷ scores) 1 (tie f 0 score start)
          (tie-some 0 score start (inr (less_bottom score))) in
      elim (Bool-cases (length t.ties == 1)) [
        | inl single ↦
            let (i, at, best) = ties-IsBest all t 0 search one in
            (i, choose_then _ single ∙ at, best)
        | inr several ↦
            let (i, at, best) =
              ties-IsBest all t (draw (length t.ties)) search (draw_lt (length t.ties) one) in
            (i, choose_else _ several ∙ at, best)
      ]

  best_of-IsBest :
      (score : ℕ → Score) (first : ℕ) (rest : List ℕ)
      → (c : ℕ) × (best_of f score (first ∷ rest) ≡ some c)
        × (has (first ∷ rest) c ≡ true)
        × All (λ d. less (score c) (score d) ≡ false) (first ∷ rest)
  unfolding best_of
  best_of-IsBest score first rest =
      let (i, is_i, (s, at, higher)) = best_index-IsBest (score first) (map score rest) in
      let (c, is_c, same) = get_elem?-map score (first ∷ rest) i s at in
      (
        c,
        winner (first ∷ rest) i c is_i is_c,
        get_elem?-has (first ∷ rest) i c is_c,
        subst (λ (x : Score). All (λ d. less x (score d) ≡ false) (first ∷ rest)) same
            (All-unmap (λ (x : Score). less s x ≡ false) score (first ∷ rest) higher),
      )

  picked :
      (score : ℕ → Score) (nodes : List ℕ) (c : ℕ)
      → best_of f score nodes ≡ some c
      → has nodes c ≡ true
  unfolding best_of best_index
  picked score [] c e = absurd (ground (arith, e))
  picked score (first ∷ rest) c e =
      let (d, found, member, best) = best_of-IsBest score first rest in
      subst (λ (x : ℕ). has (first ∷ rest) x ≡ true) (same_child d c (sym found ∙ e)) member

  module _ {g : GNodes} (t : Tree g) (n : ℕ) where
    -- For a node with children, scores that are ordered as numbers are, and numbers drawn below
    -- their bounds, `best_child` returns one of the children, and no child has a larger score.
    pub best_child-IsBest :
        (first : ℕ) (rest : List ℕ)
        → g.children t.links n ≡ first ∷ rest
        → (c : ℕ) × (best_child f t n ≡ some c)
          × (has (g.children t.links n) c ≡ true)
          × All
              (λ d. less (tree_node_score f t c) (tree_node_score f t d) ≡ false)
              (g.children t.links n)
    unfolding best_child
    best_child-IsBest first rest e =
        subst
          (λ (cs : List ℕ).
            (c : ℕ) × (best_of f (tree_node_score f t) cs ≡ some c)
            × (has cs c ≡ true)
            × All (λ d. less (tree_node_score f t c) (tree_node_score f t d) ≡ false) cs)
          (sym e) (best_of-IsBest (tree_node_score f t) first rest)

    -- For a node with seeds, scores that are ordered as numbers are, and numbers drawn below their
    -- bounds, `best_seed` returns the index of a seed, and no seed has a larger score.
    pub best_seed-IsBest :
        (first : SeedInfo) (rest : List SeedInfo)
        → (t.data_of n).seeds ≡ first ∷ rest
        → (i : ℕ) × (best_seed f t n ≡ some i)
          × IsBest (map (seed_score f (t.data_of n)) (t.data_of n).seeds) i
    unfolding best_seed
    best_seed-IsBest first rest e =
        let score = seed_score f (t.data_of n) in
        rw (best_seed, e) (best_index-IsBest (score first) (map score rest))

    -- The node that is picked is a child.
    pub best_child-has : (c : ℕ) → best_child f t n ≡ some c → has (g.children t.links n) c ≡ true
    unfolding best_child
    best_child-has c e = picked (tree_node_score f t) (g.children t.links n) c e
