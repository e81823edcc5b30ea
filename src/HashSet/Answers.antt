-- ===== src/HashSet/Answers.antt =====
-- include/amino/lockfree_set.h: what `insert`, `remove` and `search` answer, and what they do to the elements.
use native.Mathlib.Nat.{mod-lt}
use amino.Prelude.{
  ℕ, suc, ◌-◌, ◌%◌, ◌^◌, ◌<◌, ◌≡◌, refl, sym, ap, subst, arith, ◌∙◌, true, not, ◌||◌, ◌&&◌, List,
  ◌∷◌, none, some, Bool-cases, contains, length, inl, inr, ◌==◌, if◌then◌else◌,
}
use amino.HashSet.Bits.{two-pow}
use amino.HashSet.Word.{dummy_key, regular_key}
use amino.HashSet.Order.{split_order, regular_odd}
use amino.HashSet.Nodes.{SetNode, node_eq}
use amino.HashSet.Sorted.{has, add_from_lem, node_lt}
use amino.HashSet.Removal.{remove_from_lem, search_from_lem}
use amino.HashSet.Table.{
  Set, dummy, regular, initialize_bucket, bucket_of, grow, insert, remove, search,
}
use amino.HashSet.Valid.{Valid, Keeps, open_bucket_lem}
use amino.HashSet.Initialize.{nonzero, dummy_other, initialize_bucket_lem}
use amino.HashSet.Growth.{Valid-list, grow_lem}
use amino.HashSet.Elements.{delete, Distinct, contains-delete, length-delete, Distinct-delete}

absorbed : (e x : ℕ) (q : List ℕ) → contains e q ≡ true → ((e == x) || contains x q) ≡ contains x q
absorbed e x q h = elim (Bool-cases (e == x)) [
  | inl eq ↦
      let same : e ≡ x = ground arith in ground (arith, subst (λ z. contains z q ≡ true) same h)
  | inr ne ↦ rw ne refl
]

joined : (e x : ℕ) (q : List ℕ) → ((e == x) || contains x q) ≡ contains x (e ∷ q)
unfolding contains
joined e x q = ground arith

ap2 : {A B C : Type 0} (f : A → B → C) {a a' : A} {b b' : B} → a ≡ a' → b ≡ b' → f a b ≡ f a' b'
ap2 f p q = λ i. f (p i) (q i)

module _ (hash : ℕ → ℕ) where
  -- The elements of `s` are those of `q`.
  pub record Holds (s : Set) (q : List ℕ) : Type 0 where
    pub members : (e : ℕ) → has (regular hash e) s.o_list ≡ contains e q
    pub counted : s.count ≡ length q
    pub distinct : Distinct q

  regular_other : (e x : ℕ) → node_eq (regular hash e) (regular hash x) ≡ (e == x)
  regular_other e x = elim (Bool-cases (e == x)) [
    | inl eq ↦
        let same : e ≡ x = ground arith in ground (arith, ap (λ z. regular_key (hash z)) same)
    | inr ne ↦ ground arith
  ]

  -- The dummy node that the calls start from.
  bucket_of_lem :
      {j g : ℕ} {s : Set} (e : ℕ)
      → Valid j g s
      → hash e < 2 ^ 31
      → (x : SetNode) × (u : Set) × (bucket_of hash e s ≡ some (x, u))
        × Keeps j g s u
        × (has x u.o_list ≡ true)
        × (node_lt x (regular hash e) ≡ true)
  unfolding bucket_of
  bucket_of_lem {j} {g} {s} e v h =
      let b = hash e % s.size in
      let low : b < 2 ^ j =
        subst (λ z. hash e % z < 2 ^ j) (sym (v.size_is)) (mod-lt (hash e) (two-pow j)) in
      let (u, run, k, at) =
        open_bucket_lem (initialize_bucket (suc b) b) b v low (λ t vt null.
          initialize_bucket_lem (suc b) b t vt (nonzero b vt null) low (omega arith)) in
      let order : dummy_key b < regular_key (hash e) =
        subst (λ z. dummy_key (hash e % z) < regular_key (hash e)) (sym (v.size_is))
          ((split_order j (hash e) 0 (omega (arith, v.wide, v.limit)) (omega arith)
            (two-pow j)).1) in
      (dummy b, u, run, k, (k.valid.points b (dummy b) at).2, ground (arith, order))

  kept_members : {j g : ℕ} {s u : Set} {q : List ℕ} → Keeps j g s u → Holds s q → Holds u q
  kept_members k m = record {
    members = λ e. k.elements (regular hash e) (regular_odd (hash e)) ∙ m.members e;
    counted = k.count_same ∙ m.counted;
    distinct = m.distinct;
  }

  pub search_lem :
      {j g : ℕ} {s : Set} {q : List ℕ} (e : ℕ)
      → Valid j g s
      → Holds s q
      → hash e < 2 ^ 31
      → (k : ℕ) × (u : Set) × (search hash e s ≡ some (contains e q, u)) × Valid k g u × Holds u q
  unfolding search
  search_lem {j} e v m h =
      let (x, u, run, k, inside, lt) = bucket_of_lem e v h in
      let m' = kept_members k m in
      let found = search_from_lem none x (regular hash e) u.o_list (k.valid.ascending) inside lt in
      (j, u, rw (run, found, m'.members e) refl, k.valid, m')

  pub remove_lem :
      {j g : ℕ} {s : Set} {q : List ℕ} (e : ℕ)
      → Valid j g s
      → Holds s q
      → hash e < 2 ^ 31
      → (k : ℕ) × (u : Set) × (remove hash e s ≡ some (contains e q, u))
        × Valid k g u
        × Holds u (delete e q)
  unfolding remove
  remove_lem {j} {q = q} e v m h =
      let (x, u, run, k, inside, lt) = bucket_of_lem e v h in
      let m' = kept_members k m in
      let (l, done, asc, mem) =
        remove_from_lem none x (regular hash e) u.o_list (k.valid.ascending) inside lt in
      let n = if contains e q then u.count - 1 else u.count in
      let stays : (b : ℕ) → b < 2 ^ 31 → has (dummy b) u.o_list ≡ true → has (dummy b) l ≡ true =
        λ b small i.
          let other = dummy_other b (regular hash e) small (regular_odd (hash e)) in
          ground (arith, mem (dummy b), i, other) in
      let m'' : Holds (record u { o_list = l; count = n }) (delete e q) = record {
        members = λ x.
            mem (regular hash x)
            ∙ ap2 (λ a b. a && not b) (m'.members x) (regular_other e x)
            ∙ sym (contains-delete e x q (m'.distinct));
        counted = rw (length-delete e q) (ap (λ z. if contains e q then z - 1 else z) (m'.counted));
        distinct = Distinct-delete e q (m'.distinct);
      } in
      (
        j,
        record u { o_list = l; count = n },
        rw (run, done, m'.members e) refl,
        Valid-list l n (k.valid) asc stays,
        m'',
      )

  pub insert_lem :
      {j g : ℕ} {s : Set} {q : List ℕ} (e : ℕ)
      → Valid j g s
      → Holds s q
      → hash e < 2 ^ 31
      → (k : ℕ) × (u : Set) × (insert hash e s ≡ some (not (contains e q), u))
        × Valid k g u
        × Holds u (if contains e q then q else e ∷ q)
  unfolding insert
  insert_lem {j} {q = q} e v m h =
      let (x, u, run, k, inside, lt) = bucket_of_lem e v h in
      let m' = kept_members k m in
      let (l, done, asc, mem) =
        add_from_lem none x (regular hash e) u.o_list (k.valid.ascending) inside lt in
      let stays : (b : ℕ) → b < 2 ^ 31 → has (dummy b) u.o_list ≡ true → has (dummy b) l ≡ true =
        λ b small i. ground (arith, mem (dummy b), i) in
      let members : (x : ℕ) → has (regular hash x) l ≡ ((e == x) || contains x q) =
        λ x. mem (regular hash x) ∙ ap2 (λ a b. a || b) (regular_other e x) (m'.members x) in
      elim (Bool-cases (contains e q)) [
        | inl there ↦
            let m'' : Holds (record u { o_list = l }) q = record {
              members = λ x. members x ∙ absorbed e x q there;
              counted = m'.counted;
              distinct = m'.distinct;
            } in
            (
              j,
              record u { o_list = l },
              rw (run, done, m'.members e, there) refl,
              Valid-list l u.count (k.valid) asc stays,
              rw there m'',
            )
        | inr new ↦
            let t = record u { o_list = l; count = suc u.count } in
            let (i, grown, same, count) =
              grow_lem t (Valid-list l (suc u.count) (k.valid) asc stays) in
            let m'' : Holds (grow t) (e ∷ q) = record {
              members = λ x. ap (has (regular hash x)) same ∙ members x ∙ joined e x q;
              counted = count ∙ ap suc (m'.counted);
              distinct = (new, m'.distinct);
            } in
            (i, grow t, rw (run, done, m'.members e, new) refl, grown, rw new m'')
      ]
