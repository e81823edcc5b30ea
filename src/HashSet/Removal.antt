-- ===== src/HashSet/Removal.antt =====
-- include/amino/ordered_list.h: `remove` and `search` on the ascending list of the hash set.
use amino.Prelude.{
  ◌≡◌, refl, arith, true, false, not, List, [], ◌∷◌, Option, some, ◌&&◌, Bool-cases, inl, inr,
}
use amino.HashSet.Nodes.{SetNode, node_eq, node_ge, remove_at, remove_from, search_at, search_from}
use amino.HashSet.Sorted.{node_lt, behind, Ascending, has, behind_trans, before_has, has_after}

Ascending-weaken :
    (p : Option SetNode) (x : SetNode) (l : List SetNode)
    → behind p x ≡ true
    → Ascending (some x) l
    → Ascending p l
Ascending-weaken p x [] h a = tt
Ascending-weaken p x (y ∷ l) h (a, b) = (behind_trans p x y h a, b)

remove_at-Ascending :
    (p : Option SetNode) (e : SetNode) (l : List SetNode)
    → Ascending p l
    → Ascending p ((remove_at e l).1)
unfolding remove_at
remove_at-Ascending p e [] a = tt
remove_at-Ascending p e (x ∷ l) (a, b) = elim (Bool-cases (node_ge x e)) [
  | inl ge ↦ elim (Bool-cases (node_eq x e)) [
    | inl eq ↦ rw (ge, eq) (Ascending-weaken p x l a b)
    | inr ne ↦ rw (ge, ne) (a, b)
  ]
  | inr lt ↦ rw lt (a, remove_at-Ascending (some x) e l b)
]

not_equal :
    (e y : SetNode) (l : List SetNode) → has e l ≡ false → node_eq e y ≡ true → has y l ≡ false
unfolding has
not_equal e y [] h k = refl
not_equal e y (x ∷ l) h k = ground (arith, not_equal e y l)

not_equal_and :
    (e y : SetNode) (l : List SetNode) → has e l ≡ false → has y l ≡ (has y l && not (node_eq e y))
not_equal_and e y l h = elim (Bool-cases (node_eq e y)) [
  | inl eq ↦ rw (eq, not_equal e y l h eq) refl
  | inr ne ↦ ground (arith, ne)
]

behind_itself :
    (x e : SetNode) (l : List SetNode) → Ascending (some x) l → node_eq x e ≡ true → has e l ≡ false
unfolding has
behind_itself x e [] a h = refl
behind_itself x e (y ∷ l) (a, b) h =
    let near : node_lt e y ≡ true = ground arith in before_has e y l b near

remove_at-has :
    (p : Option SetNode) (e : SetNode) (l : List SetNode)
    → Ascending p l
    → ((remove_at e l).0 ≡ has e l)
      × ((y : SetNode) → has y ((remove_at e l).1) ≡ (has y l && not (node_eq e y)))
unfolding remove_at has
remove_at-has p e [] a = (refl, λ x. refl)
remove_at-has p e (x ∷ l) (a, b) =
    let (ans, mem) = remove_at-has (some x) e l b in
    let none_before = before_has e x l b in
    (
      ground (arith, ans, none_before),
      λ y. elim (Bool-cases (node_ge x e)) [
        | inl ge ↦ elim (Bool-cases (node_eq x e)) [
          | inl eq ↦
              let rest = not_equal_and e y l (behind_itself x e l b eq) in
              rw (ge, eq) (ground (arith, rest))
          | inr ne ↦
              let near : node_lt e x ≡ true = ground arith in
              rw (ge, ne) (not_equal_and e y (x ∷ l) (none_before near))
        ]
        | inr lt ↦ let m = mem y in rw lt (ground (arith, m))
      ],
    )

search_at_lem :
    (p : Option SetNode) (e : SetNode) (l : List SetNode) → Ascending p l → search_at e l ≡ has e l
unfolding search_at has
search_at_lem p e [] a = refl
search_at_lem p e (x ∷ l) (a, b) = ground (arith, search_at_lem (some x) e l b, before_has e x l b)

pub search_from_lem :
    (p : Option SetNode) (start e : SetNode) (l : List SetNode)
    → Ascending p l
    → has start l ≡ true
    → node_lt start e ≡ true
    → search_from start e l ≡ some (has e l)
unfolding search_from has
search_from_lem p start e [] a h lt = absurd (ground (arith, h))
search_from_lem p start e (x ∷ l) (a, b) h lt = elim (Bool-cases (node_eq x start)) [
  | inl eq ↦
      let before : node_ge x e ≡ false = ground arith in
      let other : node_eq x e ≡ false = ground arith in
      rw (eq, before, other, search_at_lem (some x) e l b) refl
  | inr ne ↦
      let inside : has start l ≡ true = ground arith in
      let near = has_after x start l b inside in
      let other : node_eq x e ≡ false = ground arith in
      rw (ne, other) (search_from_lem (some x) start e l b inside lt)
]

-- `remove` from a node that stands before the one to remove.
pub remove_from_lem :
    (p : Option SetNode) (start e : SetNode) (l : List SetNode)
    → Ascending p l
    → has start l ≡ true
    → node_lt start e ≡ true
    → (l' : List SetNode) × (remove_from start e l ≡ some (has e l, l'))
      × Ascending p l'
      × ((y : SetNode) → has y l' ≡ (has y l && not (node_eq e y)))
unfolding remove_from has
remove_from_lem p start e [] a h lt = absurd (ground (arith, h))
remove_from_lem p start e (x ∷ l) (a, b) h lt = elim (Bool-cases (node_eq x start)) [
  | inl eq ↦
      let (ans, mem) = remove_at-has (some x) e l b in
      let before : node_ge x e ≡ false = ground arith in
      let other : node_eq x e ≡ false = ground arith in
      (
        x ∷ (remove_at e l).1,
        rw (eq, before, other, ans) refl,
        (a, remove_at-Ascending (some x) e l b),
        λ y. ground (arith, mem y),
      )
  | inr ne ↦
      let inside : has start l ≡ true = ground arith in
      let (l', eq, asc, mem) = remove_from_lem (some x) start e l b inside lt in
      let near = has_after x start l b inside in
      let other : node_eq x e ≡ false = ground arith in
      (x ∷ l', rw (ne, eq, other) refl, (a, asc), λ y. ground (arith, mem y))
]
