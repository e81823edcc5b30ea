-- ===== src/HashSet/Sorted.antt =====
-- include/amino/ordered_list.h: the list of the hash set stays in ascending order, and what its calls do.
use amino.Prelude.{
  ◌≡◌, refl, arith, Bool, true, false, not, List, [], ◌∷◌, Option, none, some, ◌==◌, ltb, ◌&&◌,
  ◌||◌, Bool-cases, inl, inr,
}
use amino.HashSet.Nodes.{SetNode, node_eq, node_ge, add_at, add_from}

abbrev pub node_lt : SetNode → SetNode → Bool
node_lt x y = ltb x.key y.key || ((x.key == y.key) && ltb x.element y.element)

-- Behind a node, or anywhere.
abbrev pub behind : Option SetNode → SetNode → Bool
behind none y = true
behind (some x) y = node_lt x y

abbrev pub Ascending : Option SetNode → List SetNode → Type 0
Ascending p [] = Unit
Ascending p (x ∷ l) = (behind p x ≡ true) × Ascending (some x) l

unfoldable pub has : SetNode → List SetNode → Bool
has e [] = false
has e (x ∷ l) = let rest = has e l in node_eq x e || rest

pub behind_trans :
    (p : Option SetNode) (x y : SetNode)
    → behind p x ≡ true
    → node_lt x y ≡ true
    → behind p y ≡ true
behind_trans none x y h k = refl
behind_trans (some p) x y h k = ground arith

-- A node before a list is not in it.
pub before_has :
    (e x : SetNode) (l : List SetNode)
    → Ascending (some x) l
    → node_lt e x ≡ true
    → has e (x ∷ l) ≡ false
unfolding has
before_has e x [] a h = ground arith
before_has e x (y ∷ l) (a, b) h = ground (arith, before_has e y l b (behind_trans (some e) x y h a))

add_at-Ascending :
    (p : Option SetNode) (e : SetNode) (l : List SetNode)
    → Ascending p l
    → behind p e ≡ true
    → Ascending p ((add_at e l).2)
unfolding add_at
add_at-Ascending p e [] a h = (h, tt)
add_at-Ascending p e (x ∷ l) (a, b) h = elim (Bool-cases (node_ge x e)) [
  | inl ge ↦ elim (Bool-cases (node_eq x e)) [
    | inl eq ↦ rw (ge, eq) (a, b)
    | inr ne ↦ rw (ge, ne) (h, (ground arith, b))
  ]
  | inr lt ↦ rw lt (a, add_at-Ascending (some x) e l b (ground arith))
]

add_at-has :
    (p : Option SetNode) (e : SetNode) (l : List SetNode)
    → Ascending p l
    → ((add_at e l).0 ≡ not (has e l))
      × ((x : SetNode) → has x ((add_at e l).2) ≡ (node_eq e x || has x l))
unfolding add_at has
add_at-has p e [] a = (refl, λ x. refl)
add_at-has p e (y ∷ l) (a, b) =
    let (ans, mem) = add_at-has (some y) e l b in
    let none_before = before_has e y l b in
    (ground (arith, ans, none_before), λ x. ground (arith, mem x, none_before))

pub has_after :
    (x y : SetNode) (l : List SetNode) → Ascending (some x) l → has y l ≡ true → node_lt x y ≡ true
unfolding has
has_after x y [] a h = absurd (ground (arith, h))
has_after x y (z ∷ l) (a, b) h = elim (Bool-cases (node_eq z y)) [
  | inl eq ↦ ground arith
  | inr ne ↦ behind_trans (some x) z y a (has_after z y l b (ground arith))
]

node_eq-≡ : (x y : SetNode) → node_eq x y ≡ true → x ≡ y
node_eq-≡ x y h =
    let e : x.element ≡ y.element = ground arith in
    let k : x.key ≡ y.key = ground arith in λ i. record { element = e i; key = k i }

add_at-address : (e : SetNode) (l : List SetNode) → (add_at e l).1 ≡ e
unfolding add_at
add_at-address e [] = refl
add_at-address e (x ∷ l) = elim (Bool-cases (node_ge x e)) [
  | inl ge ↦ elim (Bool-cases (node_eq x e)) [
    | inl eq ↦ rw (ge, eq) (node_eq-≡ x e eq)
    | inr ne ↦ rw (ge, ne) refl
  ]
  | inr lt ↦ rw lt (add_at-address e l)
]

-- `add` from a node that stands before the new one.
pub add_from_lem :
    (p : Option SetNode) (start e : SetNode) (l : List SetNode)
    → Ascending p l
    → has start l ≡ true
    → node_lt start e ≡ true
    → (l' : List SetNode) × (add_from start e l ≡ some (not (has e l), e, l'))
      × Ascending p l'
      × ((x : SetNode) → has x l' ≡ (node_eq e x || has x l))
unfolding add_from has
add_from_lem p start e [] a h lt = absurd (ground (arith, h))
add_from_lem p start e (x ∷ l) (a, b) h lt = elim (Bool-cases (node_eq x start)) [
  | inl eq ↦
      let (ans, mem) = add_at-has (some x) e l b in
      let near : node_lt x e ≡ true = ground arith in
      let before : node_ge x e ≡ false = ground arith in
      let other : node_eq x e ≡ false = ground arith in
      (
        x ∷ (add_at e l).2,
        rw (eq, before, other, ans, add_at-address e l) refl,
        (a, add_at-Ascending (some x) e l b near),
        λ y. ground (arith, mem y),
      )
  | inr ne ↦
      let inside : has start l ≡ true = ground arith in
      let (l', eq, asc, mem) = add_from_lem (some x) start e l b inside lt in
      let near = has_after x start l b inside in
      let other : node_eq x e ≡ false = ground arith in
      (x ∷ l', rw (ne, eq, other) refl, (a, asc), λ y. ground (arith, mem y))
]
