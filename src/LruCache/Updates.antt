-- ===== src/LruCache/Updates.antt =====
-- `put` and `discard_oldest` of include/ils_sp/lru_cache.hpp against a plain list of entries in the
-- order of their use.
use ils_sp.Prelude.{
  ℕ, ◌≡◌, refl, sym, ◌∙◌, false, Bool-cases, inl, inr, none, some, List, [], ◌∷◌, ◌++◌, Eq, ◌==◌,
  ℕ_eq, beq_refl, arith, nat_eq_iff,
}
use ils_sp.Maps.{
  find, contains, assign, erase, Distinct, find-assign, find-erase, contains-find,
  contains-find-none, Distinct-erase, Distinct-assign,
}
use ils_sp.LruCache.Links.{entries, entries-append, IsLinked, find-entries}
use ils_sp.LruCache.Recency.{Distinct-snoc, find-snoc, index-entries}

module _ {K V : Type 0} ⦃key : Eq K⦄ where
  -- A node's value replaced.
  contains-replaced :
      (q : K) (h : ℕ) (k : K) (v w : V) (order : List (ℕ × (K × V)))
      → find h order ≡ some (k, v)
      → contains q (entries (assign h (k, w) order)) ≡ contains q (entries order)
  unfolding find entries assign contains
  contains-replaced q h k v w [] e = absurd cc
  contains-replaced q h k v w ((j, x) ∷ order) e = elim (Bool-cases (j == h)) [
    | inl here ↦ let same : x.0 ≡ k = cc (rw here at e) in rw (here, same) refl
    | inr there ↦ rw there (rw (contains-replaced q h k v w order (rw there at e)) refl)
  ]

  Distinct-replaced :
      (h : ℕ) (k : K) (v w : V) (order : List (ℕ × (K × V)))
      → find h order ≡ some (k, v)
      → Distinct (entries order)
      → Distinct (entries (assign h (k, w) order))
  unfolding find entries assign
  Distinct-replaced h k v w [] e ks = absurd cc
  Distinct-replaced h k v w ((j, x) ∷ order) e ks = elim (Bool-cases (j == h)) [
    | inl here ↦ let same : x.0 ≡ k = cc (rw here at e) in rw here (rw same at ks.0, ks.1)
    | inr there ↦
        let found = rw there at e in
        rw there (
          contains-replaced x.0 h k v w order found ∙ ks.0,
          Distinct-replaced h k v w order found ks.1,
        )
  ]

  pub erase-replaced :
      (h : ℕ) (k : K) (v w : V) (order : List (ℕ × (K × V)))
      → find h order ≡ some (k, v)
      → Distinct (entries order)
      → erase k (entries (assign h (k, w) order)) ≡ erase k (entries order)
  unfolding find entries assign erase contains
  erase-replaced h k v w [] e ks = absurd cc
  erase-replaced h k v w ((j, x) ∷ order) e ks = elim (Bool-cases (j == h)) [
    | inl here ↦
        let same : x.0 ≡ k = cc (rw here at e) in
        rw here (rw (beq_refl k) (rw same (rw (beq_refl k) refl)))
    | inr there ↦
        let found = rw there at e in
        rw there (
          rw (erase-replaced h k v w order found ks.1) (
            ground (
              arith,
              contains-find k (entries order) v (find-entries h k v order ks.1 found),
              key.beq_iff x.0 k,
              ks.0,
            )))
  ]

  pub replaced-IsLinked :
      (h : ℕ) (k : K) (v w : V) (order : List (ℕ × (K × V))) (index : List (K × ℕ))
      → find h order ≡ some (k, v)
      → IsLinked order index
      → IsLinked (assign h (k, w) order) index
  replaced-IsLinked h k v w order index e l = record {
    handles = Distinct-assign h (k, w) order l.handles;
    keys = Distinct-replaced h k v w order e l.keys;
    distinct = l.distinct;
    points = λ q g found.
        let (x, there) = l.points q g found in
        elim (Bool-cases (h == g)) [
          | inl here ↦
              let same : h ≡ g = (nat_eq_iff h g).0 here in
              let keys : k ≡ q = cc (rw same at e, there) in
              (w, find-assign h g (k, w) order ∙ rw here (rw keys refl))
          | inr other ↦ (x, find-assign h g (k, w) order ∙ rw other there)
        ];
    pointed = λ q g u found.
        let after = sym (find-assign h g (k, w) order) ∙ found in
        elim (Bool-cases (h == g)) [
          | inl here ↦
              let same : h ≡ g = (nat_eq_iff h g).0 here in
              let keys : k ≡ q = cc (rw here at after) in rw (← keys, ← same) (l.pointed k h v e)
          | inr other ↦ l.pointed q g u (rw other at after)
        ];
  }

  -- A new last node.
  pub grown-IsLinked :
      (h : ℕ) (k : K) (v : V) (order : List (ℕ × (K × V))) (index : List (K × ℕ))
      → contains h order ≡ false
      → find k index ≡ none
      → IsLinked order index
      → IsLinked (order ++ (h, (k, v)) ∷ []) (assign k h index)
  unfolding entries
  grown-IsLinked h k v order index fresh absent l = record {
    handles = Distinct-snoc h (k, v) order l.handles fresh;
    keys = rw (entries-append order ((h, (k, v)) ∷ [])) (
        Distinct-snoc k v (entries order) l.keys
          (contains-find-none k (entries order) (index-entries k order index l absent)));
    distinct = Distinct-assign k h index l.distinct;
    points = λ q g found.
        let after = sym (find-assign k q h index) ∙ found in
        elim (Bool-cases (k == q)) [
          | inl here ↦
              let same : k ≡ q = (key.beq_iff k q).0 here in
              let handle : h ≡ g = cc (rw here at after) in
              (v, find-snoc g h (k, v) order fresh ∙ rw (← handle) (rw (beq_refl h) (rw same refl)))
          | inr other ↦
              let (x, there) = l.points q g (rw other at after) in
              (
                x,
                ground (
                  arith,
                  find-snoc g h (k, v) order fresh,
                  contains-find g order (q, x) there,
                  nat_eq_iff h g,
                  fresh,
                  there,
                ),
              )
        ];
    pointed = λ q g u found.
        let after = sym (find-snoc g h (k, v) order fresh) ∙ found in
        elim (Bool-cases (h == g)) [
          | inl here ↦
              let same : h ≡ g = (nat_eq_iff h g).0 here in
              let keys : k ≡ q = cc (rw here at after) in
              find-assign k q h index ∙ rw (← keys) (rw (beq_refl k) (rw same refl))
          | inr other ↦
              let before = l.pointed q g u (rw other at after) in
              find-assign k q h index ∙ elim (Bool-cases (k == q)) [
                | inl here ↦
                    let same : k ≡ q = (key.beq_iff k q).0 here in
                    absurd (cc (rw same at absent, before))
                | inr apart ↦ rw apart before
              ]
        ];
  }

  behind_front :
      (q : K) (g : ℕ) (x : V) (node : ℕ × (K × V)) (order : List (ℕ × (K × V)))
      → (node.1.0 == q) ≡ false
      → find g (node ∷ order) ≡ some (q, x)
      → find g order ≡ some (q, x)
  unfolding find
  behind_front q g x node order other there = elim (Bool-cases (node.0 == g)) [
    | inl here ↦
        let same : node.1 ≡ (q, x) = cc (rw here at there) in
        absurd (cc (rw same at other, beq_refl q))
    | inr past ↦ rw past at there
  ]

  before_front :
      (g : ℕ) (item : K × V) (node : ℕ × (K × V)) (order : List (ℕ × (K × V)))
      → Distinct (node ∷ order)
      → find g order ≡ some item
      → find g (node ∷ order) ≡ some item
  unfolding find
  before_front g item node order d found =
      ground (arith, found, contains-find g order item found, nat_eq_iff node.0 g, d.0)

  -- The front node gone.
  pub dropped-IsLinked :
      (node : ℕ × (K × V)) (order : List (ℕ × (K × V))) (index : List (K × ℕ))
      → IsLinked (node ∷ order) index
      → IsLinked order (erase node.1.0 index)
  unfolding entries
  dropped-IsLinked node order index l = record {
    handles = l.handles.1;
    keys = l.keys.1;
    distinct = Distinct-erase node.1.0 index l.distinct;
    points = λ q g found.
        let before = sym (find-erase node.1.0 q index l.distinct) ∙ found in
        elim (Bool-cases (node.1.0 == q)) [
          | inl front ↦ absurd (cc (rw front at before))
          | inr other ↦
              let (x, there) = l.points q g (rw other at before) in
              (x, behind_front q g x node order other there)
        ];
    pointed = λ q g u found.
        let before = l.pointed q g u (before_front g (q, u) node order l.handles found) in
        let held = contains-find q (entries order) u (find-entries g q u order l.keys.1 found) in
        find-erase node.1.0 q index l.distinct ∙ elim (Bool-cases (node.1.0 == q)) [
          | inl front ↦
              let same : node.1.0 ≡ q = (key.beq_iff node.1.0 q).0 front in
              absurd (cc (rw same at l.keys.0, held))
          | inr other ↦ rw other before
        ];
  }
