-- ===== src/Core/Partition/Counts.antt =====
-- How often ids occur: in two lists of the same ids, and among the nodes of an instance.
use ils_sp.Prelude.{
  ℕ, zero, suc, ◌+◌, ◌≤◌, ◌≡◌, refl, sym, ◌∙◌, true, Bool-cases, ◌⊎◌, inl, inr, some, List, [], ◌∷◌,
  length, get_elem?, to_nat, arith, ok, ◌&&◌, if◌then◌else◌,
}
use ils_sp.Prelude.Int.{ℤ, eqb_ℤ, eqb_ℤ_iff}
use ils_sp.Double.{Double}
use ils_sp.Core.Sets.{count}
use ils_sp.Core.Instance.{NodeKind, depot, customer, station, Node, Instance, node}
use ils_sp.Core.Instance.Scanned.{same_kind, kind_count}
use ils_sp.Core.Instance.Built.{IsBuilt}
use ils_sp.Core.Instance.Queries.{search_id-cases, node-search, node-listed}
use ils_sp.Core.Partition.{is_customer}

pub le_or_lt : (a b : ℕ) → (a ≤ b) ⊎ (suc b ≤ a)
le_or_lt a b = omega arith

kind_of : (kind : NodeKind) → is_customer kind ≡ true → same_kind kind customer ≡ true
kind_of depot h = h
kind_of customer h = h
kind_of station h = h

of_kind : (kind : NodeKind) → same_kind kind customer ≡ true → is_customer kind ≡ true
of_kind depot h = h
of_kind customer h = h
of_kind station h = h

-- A list without the first occurrence of an id.
abbrev remove : ℤ → List ℤ → List ℤ
remove a [] = []
remove a (b ∷ l) = let rest = remove a l in if eqb_ℤ b a then l else b ∷ rest

count-remove :
    (a b : ℤ) (l : List ℤ) → 1 ≤ count a l → count b l ≡ to_nat (eqb_ℤ a b) + count b (remove a l)
unfolding count
count-remove a b [] h = absurd (omega arith)
count-remove a b (c ∷ l) h =
    ground (arith, count-remove a b l, eqb_ℤ_iff c a, eqb_ℤ_iff c b, eqb_ℤ_iff a b)

length-remove : (a : ℤ) (l : List ℤ) → 1 ≤ count a l → length l ≡ suc (length (remove a l))
unfolding count
length-remove a [] h = absurd (omega arith)
length-remove a (c ∷ l) h = ground (arith, length-remove a l)

count_head : (a : ℤ) (l : List ℤ) → 1 ≤ count a (a ∷ l)
unfolding count
count_head a l = ground (arith, eqb_ℤ_iff a a)

-- Two lists with the same ids are equally long.
pub length_of_counts : (l m : List ℤ) → ((a : ℤ) → count a l ≡ count a m) → length l ≡ length m
unfolding count
length_of_counts [] [] h = refl
length_of_counts [] (b ∷ m) h = absurd (omega (arith, h b, count_head b m))
length_of_counts (a ∷ l) m h =
    let has : 1 ≤ count a m = omega (arith, h a, count_head a l) in
    let rest = length_of_counts l (remove a m) (λ b. omega (arith, h b, count-remove a b m has)) in
    omega (arith, rest, length-remove a m has)

-- Two equally long lists, one of which has every id at least as often, have the same ids.
pub counts_of_length :
    (l m : List ℤ)
    → ((a : ℤ) → count a l ≤ count a m)
    → length l ≡ length m
    → (a : ℤ) → count a l ≡ count a m
unfolding count
counts_of_length [] [] h e a = refl
counts_of_length [] (b ∷ m) h e a = absurd (omega arith)
counts_of_length (c ∷ l) m h e a =
    let has : 1 ≤ count c m = omega (arith, h c, count_head c l) in
    let rest =
      counts_of_length l (remove c m) (λ b. omega (arith, h b, count-remove c b m has))
        (omega (arith, e, length-remove c m has)) a in
    omega (arith, rest, count-remove c a m has)

module _ {D : Type 0} ⦃d : Double D⦄ where
  kind_count_ge :
      (kind : NodeKind) (nodes : List (Node D)) (k : ℕ) (n : Node D)
      → get_elem? nodes k ≡ some n
      → same_kind n.kind kind ≡ true
      → 1 ≤ kind_count kind n.id nodes
  unfolding kind_count
  kind_count_ge kind [] k n at_k same = absurd cc
  kind_count_ge kind (m ∷ nodes) zero n at_k same =
      let here : m ≡ n = cc in rw here (ground (arith, same, eqb_ℤ_iff n.id n.id))
  kind_count_ge kind (m ∷ nodes) (suc k) n at_k same =
      omega (arith, kind_count_ge kind nodes k n at_k same)

  kind_count_place :
      (kind : NodeKind) (a : ℤ) (nodes : List (Node D))
      → 1 ≤ kind_count kind a nodes
      → (k : ℕ) × (n : Node D) × (get_elem? nodes k ≡ some n)
        × (same_kind n.kind kind ≡ true)
        × (n.id ≡ a)
  unfolding kind_count
  kind_count_place kind a [] h = absurd (omega arith)
  kind_count_place kind a (m ∷ nodes) h =
      elim (Bool-cases (same_kind m.kind kind && eqb_ℤ m.id a)) [
        | inl e ↦ (0, m, refl, ground (arith, e), ground (arith, e, eqb_ℤ_iff m.id a))
        | inr e ↦
            let (k, n, at_k, same, id) = kind_count_place kind a nodes (ground (arith, e, h)) in
            (suc k, n, at_k, same, id)
      ]

  -- Ids that are at one place at most.
  abbrev Unique : List (Node D) → Type 0
  Unique nodes =
      (j k : ℕ) (m n : Node D)
      → get_elem? nodes j ≡ some m
      → get_elem? nodes k ≡ some n
      → m.id ≡ n.id
      → j ≡ k

  kind_count_le :
      (kind : NodeKind) (a : ℤ) (nodes : List (Node D)) → Unique nodes → kind_count kind a nodes ≤ 1
  unfolding kind_count
  kind_count_le kind a [] u = omega arith
  kind_count_le kind a (m ∷ nodes) u =
      let tail : Unique nodes =
        λ j k x y at_j at_k same. omega (arith, u (suc j) (suc k) x y at_j at_k same) in
      elim (Bool-cases (same_kind m.kind kind && eqb_ℤ m.id a)) [
        | inr e ↦ ground (arith, e, kind_count_le kind a nodes tail)
        | inl e ↦ elim (le_or_lt (kind_count kind a nodes) 0) [
          | inl none_later ↦ ground (arith, e, none_later)
          | inr later ↦
              let (k, n, at_k, _, n_id) = kind_count_place kind a nodes later in
              let m_id : m.id ≡ a = ground (arith, e, eqb_ℤ_iff m.id a) in
              absurd (omega (arith, u 0 (suc k) m n refl at_k (m_id ∙ sym n_id)))
        ]
      ]

  module _ (i : Instance D) (v : IsBuilt i) where
    built-Unique : Unique i.nodes
    built-Unique j k m n at_j at_k same =
        let first = v.found j m at_j in let second = v.found k n at_k in cc (rw same at first)

    pub customers_le : (a : ℤ) → count a i.customer_ids ≤ 1
    customers_le a = rw (v.customers a) (kind_count_le customer a i.nodes built-Unique)

    pub customer_of_count :
        (a : ℤ)
        → 1 ≤ count a i.customer_ids
        → (n : Node D) × (node i a ≡ ok n) × (is_customer n.kind ≡ true)
    customer_of_count a h =
        let (k, n, at_k, same, id) =
          kind_count_place customer a i.nodes (rw (v.customers a) at h) in
        (n, node-listed i v a k n at_k id, of_kind n.kind same)

    pub count_of_customer :
        (a : ℤ) (n : Node D)
        → node i a ≡ ok n
        → is_customer n.kind ≡ true
        → count a i.customer_ids ≡ 1
    count_of_customer a n e h = elim (search_id-cases a i.nodes) [
      | inl missing ↦ absurd (cc (rw (node-search i v a, missing) at e))
      | inr (k, m, at_k, id, searched) ↦
          let same : m ≡ n = cc (rw (node-search i v a, searched) at e) in
          let some_customer =
            kind_count_ge customer i.nodes k m at_k (kind_of m.kind (rw same h)) in
          omega (arith, customers_le a, v.customers a, rw id at some_customer)
    ]
