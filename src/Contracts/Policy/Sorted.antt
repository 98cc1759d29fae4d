-- ===== src/Contracts/Policy/Sorted.antt =====
-- The canonical order of children.
use sigbash_sdk.Prelude.{
  ◌≡◌, refl, sym, ap, ◌∙◌, List, [], ◌∷◌, ◌++◌, true, false, Bool-cases, inl, inr, arith,
}
use mathlib.Core.List.{Permᴰ}
use mathlib.Core.List.Permᴰ
use sigbash_sdk.Text.{Text}
use sigbash_sdk.Contracts.Policy.{JsonRuntime, OperatorType, PolicyNode}
use sigbash_sdk.Contracts.Policy.Texts.{before}
use sigbash_sdk.Contracts.Policy.Order.{before_asymm}
use sigbash_sdk.Contracts.Policy.Canonical.{
  is_associative, is_commutative, is_duplicate_insensitive, Keyed, insert_child, sort_children,
  nodes_under,
}
use sigbash_sdk.Contracts.Policy.Canonicalize.{node_sort_key, keyed, ordered, canonical_children}

-- Of two texts, neither below the other, each is the other.
before_tri : (a b : Text) → before a b ≡ false → before b a ≡ false → a ≡ b
unfolding before
before_tri [] [] h k = refl
before_tri [] (y ∷ b) h k = absurd cc
before_tri (x ∷ a) [] h k = absurd cc
before_tri (x ∷ a) (y ∷ b) h k = ground (arith, before_tri a b)

-- What is not above `c` is below everything that `c` is below.
before_trans : (a b c : Text) → before c a ≡ false → before c b ≡ true → before a b ≡ true
unfolding before
before_trans [] [] c h k = absurd cc
before_trans [] (y ∷ b) c h k = refl
before_trans (x ∷ a) [] c h k = absurd cc
before_trans (x ∷ a) (y ∷ b) [] h k = absurd cc
before_trans (x ∷ a) (y ∷ b) (z ∷ c) h k = ground (arith, before_trans a b c)

insert_child-front :
    (a b : Keyed) (l : List Keyed) → before b.0 a.0 ≡ false → insert_child a (b ∷ l) ≡ a ∷ b ∷ l
unfolding insert_child
insert_child-front (k, a) (l, b) ls h = rw h refl

insert_child-behind :
    (a b : Keyed) (l : List Keyed)
    → before b.0 a.0 ≡ true
    → insert_child a (b ∷ l) ≡ b ∷ insert_child a l
unfolding insert_child
insert_child-behind (k, a) (l, b) ls h = rw h refl

-- Two children in front of a list, in either order of their insertion.
insert_two :
    (a b : Keyed) (l : List Keyed)
    → (a.0 ≡ b.0 → a ≡ b)
    → insert_child a l ≡ a ∷ l
    → insert_child b l ≡ b ∷ l
    → insert_child a (insert_child b l) ≡ insert_child b (insert_child a l)
insert_two a b l same ha hb =
    rw (ha, hb)
      (elim (Bool-cases (before b.0 a.0)) [
        | inl below ↦
            insert_child-behind a b l below
            ∙ ap (λ m. b ∷ m) ha
            ∙ sym (insert_child-front b a l (before_asymm b.0 a.0 below))
        | inr above ↦ elim (Bool-cases (before a.0 b.0)) [
          | inl below ↦
              insert_child-front a b l above
              ∙ sym (ap (λ m. a ∷ m) hb)
              ∙ sym (insert_child-behind b a l below)
          | inr both ↦ (let e = same (before_tri a.0 b.0 both above) in rw e refl)
        ]
      ])

-- Children are inserted in either order, if two with one key are one.
insert_comm :
    (a b : Keyed) (l : List Keyed)
    → (a.0 ≡ b.0 → a ≡ b)
    → insert_child a (insert_child b l) ≡ insert_child b (insert_child a l)
unfolding insert_child
insert_comm a b [] same = insert_two a b [] same refl refl
insert_comm a b (c ∷ l) same = elim (Bool-cases (before c.0 a.0)) [
  | inl ca ↦ elim (Bool-cases (before c.0 b.0)) [
    | inl cb ↦
        ap (insert_child a) (insert_child-behind b c l cb)
        ∙ insert_child-behind a c (insert_child b l) ca
        ∙ ap (λ m. c ∷ m) (insert_comm a b l same)
        ∙ sym (insert_child-behind b c (insert_child a l) cb)
        ∙ sym (ap (insert_child b) (insert_child-behind a c l ca))
    | inr bc ↦
        ap (insert_child a) (insert_child-front b c l bc)
        ∙ insert_child-behind a b (c ∷ l) (before_trans b.0 a.0 c.0 bc ca)
        ∙ ap (λ m. b ∷ m) (insert_child-behind a c l ca)
        ∙ sym (insert_child-front b c (insert_child a l) bc)
        ∙ sym (ap (insert_child b) (insert_child-behind a c l ca))
  ]
  | inr ac ↦ elim (Bool-cases (before c.0 b.0)) [
    | inl cb ↦
        ap (insert_child a) (insert_child-behind b c l cb)
        ∙ insert_child-front a c (insert_child b l) ac
        ∙ sym (ap (λ m. a ∷ m) (insert_child-behind b c l cb))
        ∙ sym (insert_child-behind b a (c ∷ l) (before_trans a.0 b.0 c.0 ac cb))
        ∙ sym (ap (insert_child b) (insert_child-front a c l ac))
    | inr bc ↦
        insert_two a b (c ∷ l) same (insert_child-front a c l ac) (insert_child-front b c l bc)
  ]
]

insert_child-perm : (a : Keyed) (l : List Keyed) → Permᴰ (insert_child a l) (a ∷ l)
unfolding insert_child
insert_child-perm a [] = Permᴰ.refl (a ∷ [])
insert_child-perm a (b ∷ l) = elim (Bool-cases (before b.0 a.0)) [
  | inl below ↦
      rw (insert_child-behind a b l below)
        (Permᴰ.trans (Permᴰ.cons refl (insert_child-perm a l)) (Permᴰ.swap refl refl))
  | inr above ↦ rw (insert_child-front a b l above) (Permᴰ.refl (a ∷ b ∷ l))
]

sort_children-perm : (l : List Keyed) → Permᴰ (sort_children l) l
unfolding sort_children
sort_children-perm [] = Permᴰ.nil
sort_children-perm (a ∷ l) =
    Permᴰ.trans (insert_child-perm a (sort_children l)) (Permᴰ.cons refl (sort_children-perm l))

nodes_under-perm : {l m : List Keyed} → Permᴰ l m → Permᴰ (nodes_under l) (nodes_under m)
unfolding nodes_under
nodes_under-perm Permᴰ.nil = Permᴰ.nil
nodes_under-perm (Permᴰ.cons e p) = Permᴰ.cons (ap (λ c. c.1) e) (nodes_under-perm p)
nodes_under-perm (Permᴰ.swap e f) = Permᴰ.swap (ap (λ c. c.1) e) (ap (λ c. c.1) f)
nodes_under-perm (Permᴰ.trans p q) = Permᴰ.trans (nodes_under-perm p) (nodes_under-perm q)

not_associative :
    (op : OperatorType) → is_duplicate_insensitive op ≡ false → is_associative op ≡ false
unfolding is_duplicate_insensitive is_associative
not_associative OperatorType.and_op h = absurd cc
not_associative OperatorType.or_op h = absurd cc
not_associative _ h = refl

module _ (runtime : JsonRuntime) where
  nodes_under-keyed : (nodes : List PolicyNode) → nodes_under (keyed runtime nodes) ≡ nodes
  unfolding nodes_under keyed
  nodes_under-keyed [] = refl
  nodes_under-keyed (n ∷ ns) = ap (λ m. n ∷ m) (nodes_under-keyed ns)

  -- The canonical children of an operator for which repetitions count (that is neither AND, OR, NAND
  -- nor NOR) are the children in some order, each as often as before.
  pub canonical_children-perm :
      (op : OperatorType) (children : List PolicyNode)
      → is_duplicate_insensitive op ≡ false
      → Permᴰ (canonical_children runtime op children) children
  unfolding canonical_children ordered
  canonical_children-perm op children h =
      let flat = not_associative op h in
      let under : Permᴰ (nodes_under (sort_children (keyed runtime children)))
          (nodes_under (keyed runtime children)) =
        nodes_under-perm (sort_children-perm (keyed runtime children)) in
      let permuted = rw (nodes_under-keyed children) at under in
      elim (Bool-cases (is_commutative op)) [
        | inl commutative ↦ rw (flat, commutative, h) permuted
        | inr ordered_op ↦ rw (flat, ordered_op) (Permᴰ.refl children)
      ]

  -- Two neighbours.
  sort_children_swap :
      (front : List PolicyNode) (a b : PolicyNode) (back : List PolicyNode)
      → (node_sort_key runtime a ≡ node_sort_key runtime b → a ≡ b)
      → sort_children (keyed runtime (front ++ a ∷ b ∷ back))
        ≡ sort_children (keyed runtime (front ++ b ∷ a ∷ back))
  unfolding sort_children keyed
  sort_children_swap [] a b back same =
      insert_comm (node_sort_key runtime a, a) (node_sort_key runtime b, b) _
        (λ e. let n = same e in cc)
  sort_children_swap (n ∷ front) a b back same =
      ap (insert_child (node_sort_key runtime n, n)) (sort_children_swap front a b back same)

  -- The order step gives the same children whichever of two neighbours stands first, if the two are
  -- one node where their sort keys are one.
  pub ordered_swap :
      (op : OperatorType) (front : List PolicyNode) (a b : PolicyNode) (back : List PolicyNode)
      → (node_sort_key runtime a ≡ node_sort_key runtime b → a ≡ b)
      → ordered runtime op (front ++ a ∷ b ∷ back) ≡ ordered runtime op (front ++ b ∷ a ∷ back)
  unfolding ordered
  ordered_swap op front a b back same = rw (sort_children_swap front a b back same) refl
