-- ===== src/Core/Sets.antt =====
-- `sorted_customer_set` of src/core.cpp: which lists of customers it makes equal.
use ils_sp.Prelude.{
  ℕ, ◌+◌, ◌≤◌, ◌≡◌, refl, sym, ap, ◌∙◌, ◌↔◌, Bool-cases, inl, inr, List, [], ◌∷◌, All, length,
  to_nat, arith,
}
use ils_sp.Prelude.Int.{ℤ, ◌≤ℤ◌, ◌<ℤ◌, ltb_ℤ, eqb_ℤ, eqb_ℤ_iff, int_laws, parts_of_eq, eq_of_parts}
use ils_sp.Core.{insert_sorted, sort, unique, sorted_customer_set}

-- How often an id is in a list.
unfoldable pub count : ℤ → List ℤ → ℕ
count a [] = 0
count a (b ∷ l) = to_nat (eqb_ℤ b a) + count a l

abbrev IsAscending : List ℤ → Type 0
IsAscending [] = Unit
IsAscending (a ∷ l) = All (λ b. a ≤ℤ b) l × IsAscending l

abbrev pub IsStrict : List ℤ → Type 0
IsStrict [] = Unit
IsStrict (a ∷ l) = All (λ b. a <ℤ b) l × IsStrict l

count-insert_sorted :
    (a b : ℤ) (l : List ℤ) → count a (insert_sorted b l) ≡ to_nat (eqb_ℤ b a) + count a l
unfolding count insert_sorted
count-insert_sorted a b [] = refl
count-insert_sorted a b (c ∷ l) = ground (arith, count-insert_sorted a b l)

pub count-sort : (a : ℤ) (l : List ℤ) → count a (sort l) ≡ count a l
unfolding count sort
count-sort a [] = refl
count-sort a (b ∷ l) = omega (arith, count-insert_sorted a b (sort l), count-sort a l)

All-insert_sorted :
    (P : ℤ → Type 0) (b : ℤ) (l : List ℤ) → P b → All P l → All P (insert_sorted b l)
unfolding insert_sorted
All-insert_sorted P b [] h hs = (h, tt)
All-insert_sorted P b (c ∷ l) h hs = elim (Bool-cases (ltb_ℤ c b)) [
  | inl e ↦ rw (e, insert_sorted) (hs.0, All-insert_sorted P b l h hs.1)
  | inr e ↦ rw (e, insert_sorted) (h, hs)
]

All-weaken : (P Q : ℤ → Type 0) (l : List ℤ) → ((a : ℤ) → P a → Q a) → All P l → All Q l
All-weaken P Q [] h hs = tt
All-weaken P Q (a ∷ l) h hs = (h a hs.0, All-weaken P Q l h hs.1)

insert_sorted-IsAscending : (b : ℤ) (l : List ℤ) → IsAscending l → IsAscending (insert_sorted b l)
unfolding insert_sorted
insert_sorted-IsAscending b [] h = (tt, tt)
insert_sorted-IsAscending b (c ∷ l) h = elim (Bool-cases (ltb_ℤ c b)) [
  | inl e ↦
      rw (e, insert_sorted)
        (
          All-insert_sorted (λ x. c ≤ℤ x) b l (ground (arith, e)) h.0,
          insert_sorted-IsAscending b l h.1,
        )
  | inr e ↦
      let first : b ≤ℤ c = ground (arith, e) in
      rw (e, insert_sorted)
        ((first, All-weaken (λ x. c ≤ℤ x) (λ x. b ≤ℤ x) l (λ x k. omega int_laws) h.0), h)
]

sort-IsAscending : (l : List ℤ) → IsAscending (sort l)
unfolding sort
sort-IsAscending [] = tt
sort-IsAscending (a ∷ l) = insert_sorted-IsAscending a (sort l) (sort-IsAscending l)

All-unique : (P : ℤ → Type 0) (l : List ℤ) → All P l → All P (unique l)
unfolding unique
All-unique P [] h = h
All-unique P (a ∷ []) h = h
All-unique P (a ∷ b ∷ l) h = elim (Bool-cases (eqb_ℤ a b)) [
  | inl e ↦ rw (e, unique) (All-unique P (b ∷ l) h.1)
  | inr e ↦ rw (e, unique) (h.0, All-unique P (b ∷ l) h.1)
]

unique-IsStrict : (l : List ℤ) → IsAscending l → IsStrict (unique l)
unfolding unique
unique-IsStrict [] h = tt
unique-IsStrict (a ∷ []) h = (tt, tt)
unique-IsStrict (a ∷ b ∷ l) h = elim (Bool-cases (eqb_ℤ a b)) [
  | inl e ↦ rw (e, unique) (unique-IsStrict (b ∷ l) h.1)
  | inr e ↦
      let first : a <ℤ b = ground (arith, e, h.0.0) in
      rw (e, unique)
        (
          All-unique (λ x. a <ℤ x) (b ∷ l)
              (first, All-weaken (λ x. b ≤ℤ x) (λ x. a <ℤ x) l (λ x k. omega int_laws) h.1.0),
          unique-IsStrict (b ∷ l) h.1,
        )
]

count-unique : (a : ℤ) (l : List ℤ) → (count a (unique l) ≡ 0) ↔ (count a l ≡ 0)
unfolding count unique
count-unique a [] = ground arith
count-unique a (b ∷ []) = ground arith
count-unique a (b ∷ c ∷ l) = ground (arith, count-unique a (c ∷ l))

count-sorted_customer_set :
    (a : ℤ) (l : List ℤ) → (count a (sorted_customer_set l) ≡ 0) ↔ (count a l ≡ 0)
unfolding sorted_customer_set
count-sorted_customer_set a l = ground (arith, count-unique a (sort l), count-sort a l)

-- The set is in strictly ascending order.
pub sorted_customer_set-IsStrict : (l : List ℤ) → IsStrict (sorted_customer_set l)
unfolding sorted_customer_set
sorted_customer_set-IsStrict l = unique-IsStrict (sort l) (sort-IsAscending l)

count-above : (a : ℤ) (l : List ℤ) → All (λ b. a <ℤ b) l → count a l ≡ 0
unfolding count
count-above a [] h = refl
count-above a (b ∷ l) h = ground (arith, count-above a l h.1, h.0)

count-bound : (a b : ℤ) (l : List ℤ) → All (λ c. a <ℤ c) l → ¬ (count b l ≡ 0) → a <ℤ b
unfolding count
count-bound a b [] h k = absurd (k refl)
count-bound a b (c ∷ l) h k = ground (arith, count-bound a b l h.1, k, h.0, eqb_ℤ_iff c b)

-- A member of a strictly ascending list is its head or behind it.
count-head : (b x : ℤ) (l : List ℤ) → IsStrict (x ∷ l) → ¬ (count b (x ∷ l) ≡ 0) → x ≤ℤ b
unfolding count
count-head b x l h k = elim (Bool-cases (eqb_ℤ x b)) [
  | inl e ↦ let same : x ≡ b = (eqb_ℤ_iff x b).0 e in omega (arith, parts_of_eq same)
  | inr e ↦ omega (arith, count-bound x b l h.0 (λ z. k (omega (arith, z, ap to_nat e))))
]

count-here : (x : ℤ) (l : List ℤ) → ¬ (count x (x ∷ l) ≡ 0)
unfolding count
count-here x l e = ground (arith, e, eqb_ℤ_iff x x)

count-tail :
    (x : ℤ) (xs ys : List ℤ)
    → All (λ b. x <ℤ b) xs
    → All (λ b. x <ℤ b) ys
    → ((a : ℤ) → (count a (x ∷ xs) ≡ 0) ↔ (count a (x ∷ ys) ≡ 0))
    → (a : ℤ) → (count a xs ≡ 0) ↔ (count a ys ≡ 0)
unfolding count
count-tail x xs ys p q h a = elim (Bool-cases (eqb_ℤ x a)) [
  | inl e ↦
      let same : x ≡ a = (eqb_ℤ_iff x a).0 e in
      ground (arith, rw same at (count-above x xs p), rw same at (count-above x ys q))
  | inr e ↦ ground (arith, h a, e)
]

-- Strictly ascending lists with the same members are equal.
strict_eq :
    (xs ys : List ℤ)
    → IsStrict xs
    → IsStrict ys
    → ((a : ℤ) → (count a xs ≡ 0) ↔ (count a ys ≡ 0))
    → xs ≡ ys
unfolding count
strict_eq [] [] p q h = refl
strict_eq [] (y ∷ ys) p q h = absurd (count-here y ys ((h y).0 refl))
strict_eq (x ∷ xs) [] p q h = absurd (count-here x xs ((h x).1 refl))
strict_eq (x ∷ xs) (y ∷ ys) p q h =
    let below = count-head x y ys q (λ e. count-here x xs ((h x).1 e)) in
    let above = count-head y x xs p (λ e. count-here y ys ((h y).0 e)) in
    let same : x ≡ y = eq_of_parts x y (omega (arith, below, above)) in
    let tails = strict_eq xs ys p.1 q.1 (count-tail y xs ys (rw same at p.0) q.0 (rw same at h)) in
    cc

-- Two lists of customers have the same sorted set exactly where they have the same members,
-- whatever their order and repetitions.
pub sorted_customer_set-eq_iff :
    (xs ys : List ℤ)
    → (sorted_customer_set xs ≡ sorted_customer_set ys)
      ↔ ((a : ℤ) → (count a xs ≡ 0) ↔ (count a ys ≡ 0))
sorted_customer_set-eq_iff xs ys = (
  λ e a. ground (
    arith,
    count-sorted_customer_set a xs,
    count-sorted_customer_set a ys,
    ap (λ l. count a l) e,
  ),
  λ h.
      strict_eq (sorted_customer_set xs) (sorted_customer_set ys) (sorted_customer_set-IsStrict xs)
        (sorted_customer_set-IsStrict ys)
        (λ a. ground (arith, count-sorted_customer_set a xs, count-sorted_customer_set a ys, h a)),
)

-- A list as long as its set repeats no customer.
length-unique : (l : List ℤ) → length (unique l) ≤ length l
unfolding unique
length-unique [] = omega arith
length-unique (a ∷ []) = omega arith
length-unique (a ∷ b ∷ l) = ground (arith, length-unique (b ∷ l))

unique-eq : (l : List ℤ) → length (unique l) ≡ length l → unique l ≡ l
unfolding unique
unique-eq [] h = refl
unique-eq (a ∷ []) h = refl
unique-eq (a ∷ b ∷ l) h = ground (arith, unique-eq (b ∷ l), length-unique (b ∷ l), h)

length-insert_sorted : (a : ℤ) (l : List ℤ) → length (insert_sorted a l) ≡ length l + 1
unfolding insert_sorted
length-insert_sorted a [] = omega arith
length-insert_sorted a (b ∷ l) = ground (arith, length-insert_sorted a l)

length-sort : (l : List ℤ) → length (sort l) ≡ length l
unfolding sort
length-sort [] = refl
length-sort (a ∷ l) = omega (arith, length-insert_sorted a (sort l), length-sort l)

strict-once : (a : ℤ) (l : List ℤ) → IsStrict l → count a l ≤ 1
unfolding count
strict-once a [] h = omega arith
strict-once a (b ∷ l) h = elim (Bool-cases (eqb_ℤ b a)) [
  | inl e ↦
      let same : b ≡ a = (eqb_ℤ_iff b a).0 e in
      omega (arith, rw same at (count-above b l h.0), ap to_nat e)
  | inr e ↦ omega (arith, strict-once a l h.1, ap to_nat e)
]

pub sorted_customer_set-once :
    (l : List ℤ) → length (sorted_customer_set l) ≡ length l → (a : ℤ) → count a l ≤ 1
unfolding sorted_customer_set
sorted_customer_set-once l h a =
    let same = unique-eq (sort l) (h ∙ sym (length-sort l)) in
    let once = strict-once a (unique (sort l)) (unique-IsStrict (sort l) (sort-IsAscending l)) in
    omega (arith, count-sort a l, ap (count a) same, once)

unique_once : (l : List ℤ) → ((a : ℤ) → count a l ≤ 1) → length (unique l) ≡ length l
unfolding unique count
unique_once [] h = refl
unique_once (a ∷ []) h = refl
unique_once (a ∷ b ∷ l) h =
    let rest = unique_once (b ∷ l) (λ c. omega (arith, h c)) in
    ground (arith, rest, h a, eqb_ℤ_iff a b, eqb_ℤ_iff a a, eqb_ℤ_iff b a)

pub length-sorted_customer_set :
    (l : List ℤ) → ((a : ℤ) → count a l ≤ 1) → length (sorted_customer_set l) ≡ length l
unfolding sorted_customer_set
length-sorted_customer_set l h =
    unique_once (sort l) (λ a. omega (arith, h a, count-sort a l)) ∙ length-sort l
