-- ===== src/Ast/Chains.antt =====
-- Chains of evaluations in a tree, and the longest of them.
use gnata.Base.{
  ℕ, zero, suc, ◌≤◌, ◌≡◌, ◌⊎◌, inl, inr, refl, ap, ap₂, sym, ◌∙◌, subst, Bool, true, false, List,
  [], ◌∷◌, ◌++◌, max, arith, IsIn, Bool-cases, leb, none-ne-some, eq_of_some-eq-some,
}
use gnata.Ast.{
  Node, node, Form, path, block, array, object, binary, minus, condition, bind, call, lambda,
  transform, sort, Nodes, nil, cons, Child, absent, present, Terms, no_terms, term, Group, no_group,
  group, Pairs, no_pairs, pair, form_of,
}
use gnata.Ast.Depths.{
  builds_function, level, evaluated_depth, depth_form, depth_nodes, depth_child, depth_terms,
  depth_group, depth_pairs, deepest_below,
}

module _ {F : Type 0} where
  abbrev pub of_nodes : Nodes F → List (Node F)
  of_nodes nil = []
  of_nodes (cons e es) = e ∷ of_nodes es

  abbrev pub of_child : Child F → List (Node F)
  of_child absent = []
  of_child (present e) = e ∷ []

  abbrev pub of_terms : Terms F → List (Node F)
  of_terms no_terms = []
  of_terms (term b e ts) = e ∷ of_terms ts

  abbrev pub of_pairs : Pairs F → List (Node F)
  of_pairs no_pairs = []
  of_pairs (pair k v ps) = k ∷ v ∷ of_pairs ps

  abbrev pub of_group : Group F → List (Node F)
  of_group no_group = []
  of_group (group ps pos b) = of_pairs ps

  abbrev pub of_form : Form F → List (Node F)
  of_form (path es) = of_nodes es
  of_form (block es) = of_nodes es
  of_form (array es) = of_nodes es
  of_form (object es) = of_nodes es
  of_form (binary op l r) = l ∷ r ∷ []
  of_form (minus e) = e ∷ []
  of_form (condition c t e) = c ∷ t ∷ of_child e
  of_form (bind l r) = l ∷ r ∷ []
  of_form (call partial v p args) = p ∷ of_nodes args
  of_form (lambda params sig body d) = body ∷ of_nodes params
  of_form (transform p u del d) = p ∷ u ∷ of_child del
  of_form (sort l ts) = l ∷ of_terms ts
  of_form _ = []

  -- All nodes directly under a node, those of its group included.
  abbrev pub children : Node F → List (Node F)
  children (node pos m g f) = of_form f ++ of_group g

-- A chain of so many evaluations that starts at a node: each but the last is of a node that is no
-- function, and the next is of a child of it.
pub data IsChain {F : Type 0} : Node F → ℕ → Type 0 where
  here : {n : Node F} → IsChain n 1
  down :
      {n c : Node F} {k : ℕ}
      → builds_function (form_of n) ≡ false
      → IsIn c (children n)
      → IsChain c k
      → IsChain n (suc k)

abbrev pub IsLongest : {F : Type 0} → Node F → ℕ → Type 0
IsLongest n k = IsChain n k × ((j : ℕ) → IsChain n j → j ≤ k)

-- The longest chain that starts at a child, or zero if there is none.
abbrev pub IsLongestBelow : {F : Type 0} → Node F → ℕ → Type 0
IsLongestBelow {F} n k =
    (((children n ≡ []) × (k ≡ 0)) ⊎ ((c : Node F) × IsIn c (children n) × IsChain c k))
    × ((c : Node F) (j : ℕ) → IsIn c (children n) → IsChain c j → j ≤ k)

module _ {F : Type 0} where
  deepest : List (Node F) → ℕ
  deepest [] = 0
  deepest (x ∷ xs) = max (evaluated_depth x) (deepest xs)

  deepest-nil : (xs : List (Node F)) → xs ≡ [] → deepest xs ≡ 0
  unfolding deepest
  deepest-nil xs e = rw e refl

  deepest-append : (xs ys : List (Node F)) → deepest (xs ++ ys) ≡ max (deepest xs) (deepest ys)
  unfolding deepest
  deepest-append [] ys = omega arith
  deepest-append (x ∷ xs) ys = omega (arith, deepest-append xs ys)

  depth_nodes-deepest : (x : Nodes F) → depth_nodes x ≡ deepest (of_nodes x)
  unfolding deepest
  depth_nodes-deepest nil = refl
  depth_nodes-deepest (cons e es) = ap (max (evaluated_depth e)) (depth_nodes-deepest es)

  depth_child-deepest : (x : Child F) → depth_child x ≡ deepest (of_child x)
  unfolding deepest
  depth_child-deepest absent = refl
  depth_child-deepest (present e) = omega arith

  depth_terms-deepest : (x : Terms F) → depth_terms x ≡ deepest (of_terms x)
  unfolding deepest
  depth_terms-deepest no_terms = refl
  depth_terms-deepest (term b e ts) = ap (max (evaluated_depth e)) (depth_terms-deepest ts)

  depth_pairs-deepest : (x : Pairs F) → depth_pairs x ≡ deepest (of_pairs x)
  unfolding deepest
  depth_pairs-deepest no_pairs = refl
  depth_pairs-deepest (pair k v ps) =
      ap (λ d. max (evaluated_depth k) (max (evaluated_depth v) d)) (depth_pairs-deepest ps)

  depth_group-deepest : (x : Group F) → depth_group x ≡ deepest (of_group x)
  unfolding deepest
  depth_group-deepest no_group = refl
  depth_group-deepest (group ps pos b) = depth_pairs-deepest ps

  depth_form-deepest : (f : Form F) → depth_form f ≡ deepest (of_form f)
  unfolding deepest
  depth_form-deepest (path es) = depth_nodes-deepest es
  depth_form-deepest (block es) = depth_nodes-deepest es
  depth_form-deepest (array es) = depth_nodes-deepest es
  depth_form-deepest (object es) = depth_nodes-deepest es
  depth_form-deepest (binary op l r) = omega arith
  depth_form-deepest (minus e) = omega arith
  depth_form-deepest (condition c t e) = omega (arith, depth_child-deepest e)
  depth_form-deepest (bind l r) = omega arith
  depth_form-deepest (call partial v p args) = omega (arith, depth_nodes-deepest args)
  depth_form-deepest (lambda params sig body d) = omega (arith, depth_nodes-deepest params)
  depth_form-deepest (transform p u del d) = omega (arith, depth_child-deepest del)
  depth_form-deepest (sort l ts) = omega (arith, depth_terms-deepest ts)
  depth_form-deepest _ = refl

  deepest_below-deepest : (n : Node F) → deepest_below n ≡ deepest (children n)
  deepest_below-deepest (node pos m g f) =
      ap₂ max (depth_form-deepest f) (depth_group-deepest g)
      ∙ sym (deepest-append (of_form f) (of_group g))

  evaluated_depth-level :
      (n : Node F) → evaluated_depth n ≡ level (builds_function (form_of n)) (deepest (children n))
  evaluated_depth-level (node pos m g f) =
      ap (level (builds_function f)) (deepest_below-deepest (node pos m g f))

  deepest-ge : (c : Node F) (xs : List (Node F)) → IsIn c xs → evaluated_depth c ≤ deepest xs
  unfolding deepest
  deepest-ge c [] (i, h) = absurd (none-ne-some (sym h))
  deepest-ge c (x ∷ xs) (zero, h) =
      let e : x ≡ c = eq_of_some-eq-some h in
      subst (λ y. evaluated_depth y ≤ max (evaluated_depth x) (deepest xs)) e (omega arith)
  deepest-ge c (x ∷ xs) (suc i, h) = omega (arith, deepest-ge c xs (i, h))

  -- The deepest of some nodes is one of them.
  deepest-IsIn :
      (x : Node F) (xs : List (Node F))
      → (c : Node F) × IsIn c (x ∷ xs) × (evaluated_depth c ≡ deepest (x ∷ xs))
  unfolding deepest
  deepest-IsIn x [] = (x, (0, refl), omega arith)
  deepest-IsIn x (y ∷ ys) =
      let (c, (i, h), e) = deepest-IsIn y ys in
      elim (Bool-cases (leb (deepest (y ∷ ys)) (evaluated_depth x))) [
        | inl l ↦ (x, (0, refl), ground arith)
        | inr l ↦ (c, (suc i, h), ground arith)
      ]

  chain-le : {n : Node F} {k : ℕ} → IsChain n k → k ≤ evaluated_depth n
  chain-le {n} here = positive (builds_function (form_of n)) (evaluated_depth-level n)
    where
      positive :
          (b : Bool) → evaluated_depth n ≡ level b (deepest (children n)) → 1 ≤ evaluated_depth n
      positive true e = omega arith
      positive false e = omega arith
  chain-le {n} (down {c = c} b i r) =
      let below = deepest-ge c (children n) i in
      let e = rw b at (evaluated_depth-level n) in omega (arith, chain-le r)

  through :
      (n : Node F) (xs : List (Node F)) (j : ℕ)
      → children n ≡ xs
      → builds_function (form_of n) ≡ false
      → deepest xs ≡ j
      → ((c : Node F) → evaluated_depth c ≡ j → IsChain c j)
      → IsChain n (suc j)
  through n [] j e b d ih = subst (λ k. IsChain n (suc k)) (sym (deepest-nil [] refl) ∙ d) here
  through n (x ∷ xs) j e b d ih =
      let (c, i, q) = deepest-IsIn x xs in down b (subst (IsIn c) (sym e) i) (ih c (q ∙ d))

  chain_exists : (k : ℕ) (n : Node F) → evaluated_depth n ≡ k → IsChain n k
  chain_exists zero n h = let one = chain-le (here {n = n}) in absurd (omega arith)
  chain_exists (suc j) n h = elim (Bool-cases (builds_function (form_of n))) [
    | inl b ↦
        (let e : evaluated_depth n ≡ 1 = evaluated_depth-level n ∙ rw b refl in
          subst (IsChain n) (sym e ∙ h) here)
    | inr b ↦
        (let e : evaluated_depth n ≡ suc (deepest (children n)) =
            evaluated_depth-level n ∙ rw b refl in
          through n (children n) j refl b (omega arith) (λ c. chain_exists j c))
  ]

  pub evaluated_depth-IsLongest : (n : Node F) → IsLongest n (evaluated_depth n)
  evaluated_depth-IsLongest n = (chain_exists (evaluated_depth n) n refl, λ j c. chain-le c)

  pub deepest_below-IsLongestBelow : (n : Node F) → IsLongestBelow n (deepest_below n)
  deepest_below-IsLongestBelow n =
      let e = deepest_below-deepest n in
      (
        attained (children n) refl e,
        λ c j i r. (let l = deepest-ge c (children n) i in omega (arith, chain-le r)),
      )
    where
      attained :
          (xs : List (Node F))
          → children n ≡ xs
          → deepest_below n ≡ deepest xs
          → ((children n ≡ []) × (deepest_below n ≡ 0))
            ⊎ ((c : Node F) × IsIn c (children n) × IsChain c (deepest_below n))
      attained [] e d = inl (e, d ∙ deepest-nil [] refl)
      attained (x ∷ xs) e d =
          let (c, i, q) = deepest-IsIn x xs in
          inr (c, subst (IsIn c) (sym e) i, chain_exists (deepest_below n) c (q ∙ sym d))
