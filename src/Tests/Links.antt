-- ===== src/Tests/Links.antt =====
-- Links between the nodes of a tree, as the array of the nodes' parents: what the search tree asks
-- of GLib can be had.
use aflnet_legion.Common.{
  ℕ, zero, suc, ◌+◌, ◌≤◌, ◌<◌, ◌≡◌, refl, ap, ◌∙◌, Bool, true, false, ◌&&◌, Option, none, some,
  List, [], ◌∷◌, ◌++◌, ◌==◌, ltb, arith, if◌then◌else◌, length, length-append, append_nil,
}
use aflnet_legion.States.{has}
use aflnet_legion.Tree.{GNodes}

abbrev pub Parents : Type 0
Parents = List (Option ℕ)

abbrev pub is_parent : Option ℕ → ℕ → ℕ → Bool
is_parent none n i = false
is_parent (some p) n i = p == n && ltb n i

-- The nodes from index `i` on that have this parent.
unfoldable pub children_from : ℕ → Parents → ℕ → List ℕ
children_from i [] n = []
children_from i (p ∷ ps) n =
    let rest = children_from (i + 1) ps n in if is_parent p n i then i ∷ rest else rest

unfoldable pub parent_of : Parents → ℕ → Option ℕ
parent_of [] n = none
parent_of (p ∷ ps) zero = p
parent_of (p ∷ ps) (suc n) = parent_of ps n

add_one : (i n : ℕ) → i + 1 + n ≡ i + suc n
add_one i n = omega arith

children_from-append :
    (i n m : ℕ) (ps : Parents)
    → children_from i (ps ++ some n ∷ []) m
      ≡ children_from i ps m
        ++ (if n == m && ltb m (i + length ps) then (i + length ps) ∷ [] else [])
unfolding children_from
children_from-append i n m [] = ground arith
children_from-append i n m (p ∷ ps) =
    ground (arith, children_from-append (i + 1) n m ps, add_one i (length ps))

pub children_from-bounds :
    (i n c : ℕ) (ps : Parents) → has (children_from i ps n) c ≡ true → (i ≤ c) × (c < i + length ps)
unfolding children_from
children_from-bounds i n c [] h = ground arith
children_from-bounds i n c (p ∷ ps) h = ground (arith, children_from-bounds (i + 1) n c ps)

pub children_from-none :
    (i n : ℕ) (ps : Parents) → i + length ps ≤ suc n → children_from i ps n ≡ []
unfolding children_from
children_from-none i n [] h = refl
children_from-none i n (p ∷ ps) h = ground (arith, children_from-none (i + 1) n ps)

is_parent-some : (p : Option ℕ) (n i : ℕ) → is_parent p n i ≡ true → p ≡ some n
is_parent-some none n i h = ground arith
is_parent-some (some p) n i h = ground arith

pub children_from-parent :
    (i n c j : ℕ) (ps : Parents)
    → c ≡ i + j
    → has (children_from i ps n) c ≡ true
    → parent_of ps j ≡ some n
unfolding children_from parent_of
children_from-parent i n c j [] e h = ground arith
children_from-parent i n c zero (p ∷ ps) e h =
    ground (arith, is_parent-some p n i, children_from-bounds (i + 1) n c ps)
children_from-parent i n c (suc j) (p ∷ ps) e h =
    ground (arith, children_from-parent (i + 1) n c j ps)

pub parent_of-append :
    (ps : Parents) (p : Option ℕ) (m : ℕ)
    → (length ps ≡ m → ⊥)
    → parent_of (ps ++ p ∷ []) m ≡ parent_of ps m
unfolding parent_of
parent_of-append [] p zero ne = absurd (ne refl)
parent_of-append [] p (suc m) ne = refl
parent_of-append (q ∷ ps) p zero ne = refl
parent_of-append (q ∷ ps) p (suc m) ne = parent_of-append ps p m (λ e. ne (ap suc e))

pub single_children : (n : ℕ) → children_from 0 (none ∷ []) n ≡ []
unfolding children_from
single_children n = refl

pub single_root : parent_of (none ∷ []) 0 ≡ none
unfolding parent_of
single_root = refl

if-last : (b : Bool) (n : ℕ) → b ≡ true → (if b then (0 + n) ∷ [] else []) ≡ n ∷ []
if-last b n h = rw h (ground arith)

if-none : (b : Bool) (n : ℕ) → b ≡ false → (if b then (0 + n) ∷ [] else []) ≡ []
if-none b n h = rw h refl

pub append_children :
    (s : Parents) (n : ℕ)
    → n < length s
    → children_from 0 (s ++ some n ∷ []) n ≡ children_from 0 s n ++ length s ∷ []
append_children s n h =
    children_from-append 0 n n s
    ∙ ap (λ (last : List ℕ). children_from 0 s n ++ last)
        (if-last (n == n && ltb n (0 + length s)) (length s) (ground arith))

pub append_others :
    (s : Parents) (n m : ℕ)
    → (n ≡ m → ⊥)
    → children_from 0 (s ++ some n ∷ []) m ≡ children_from 0 s m
append_others s n m ne =
    children_from-append 0 n m s
    ∙ ap (λ (last : List ℕ). children_from 0 s m ++ last)
        (if-none (n == m && ltb m (0 + length s)) (length s) (ground arith))
    ∙ append_nil (children_from 0 s m)

abbrev pub parents_array : GNodes
parents_array = record {
  Links = Parents;
  IsNode = λ s n. n < length s;
  children = λ s n. children_from 0 s n;
  parent = parent_of;
  fresh = length;
  append = λ s n. s ++ some n ∷ [];
  single = none ∷ [];
  root = 0;
  single_node = omega arith;
  single_leaf = single_children;
  single_parent = single_root;
  fresh_unused = λ s h. omega arith;
  append_new = λ s n. omega (arith, length-append s (some n ∷ []));
  append_keeps = λ s n m h. omega (arith, length-append s (some n ∷ []));
  child_node = λ s n c h. omega (arith, (children_from-bounds 0 n c s h).1);
  fresh_leaf = λ s. children_from-none 0 (length s) s (omega arith);
  children_at = append_children;
  children_else = append_others;
  child_parent = λ s n c h. children_from-parent 0 n c c s (omega arith) h;
  parent_else = λ s n m h. parent_of-append s (some n) m h;
}
