-- ===== src/HashSet/Table.antt =====
-- include/amino/lockfree_set.h: class Set, one call at a time. The assertions are left out.
use amino.Prelude.{
  ℕ, zero, suc, ◌-◌, ◌*◌, ◌/◌, ◌%◌, Bool, true, false, List, [], Option, none, some, ltb, ◌==◌,
  if◌then◌else◌, update,
}
use amino.HashSet.Word.{dummy_key, regular_key, get_parent, get_largest_value, shl}
use amino.HashSet.Nodes.{SetNode, add_at, add_from, remove_from, search_from}

infixl 5 ◌>>=◌
abbrev pub ◌>>=◌ {ℓ κ} : {A : Type ℓ} {B : Type κ} → Option A → (A → Option B) → Option B
none >>= f = none
some a >>= f = f a

-- Cells of a segment hold a pointer to the dummy node of a bucket or NULL, `none`. A number in front of `loadFactor`
-- in a comparison is a whole one, so `over` tells which numbers are larger than it.
pub record Set : Type 0 where
  pub size : ℕ
  pub count : ℕ
  pub segment_size : ℕ
  pub over : ℕ → Bool
  pub main_array : ℕ → Option (ℕ → Option SetNode)
  pub o_list : List SetNode

abbrev pub default_array_size : ℕ
default_array_size = 512

abbrev pub segment_or_new : Option (ℕ → Option SetNode) → ℕ → Option SetNode
segment_or_new none = λ _. none
segment_or_new (some cells) = cells

-- The compare-and-swap with NULL; a NULL `head` only makes the segment.
abbrev pub fill : Option SetNode → Option SetNode → Option SetNode
fill none old = old
fill (some head) none = some head
fill (some head) (some old) = some old

-- `none` is an access out of the bounds of `mainArray`.
unfoldable pub set_bucket : ℕ → Option SetNode → Set → Option Set
set_bucket bucket head s =
    let segment = bucket / s.segment_size in
    let cells = segment_or_new (s.main_array segment) in
    let at = bucket % s.segment_size in
    if ltb segment default_array_size
    then some (record s {
      main_array = update s.main_array segment (some (update cells at (fill head (cells at))));
    })
    else none

abbrev pub cell : ℕ → Set → Option SetNode
cell bucket s = segment_or_new (s.main_array (bucket / s.segment_size)) (bucket % s.segment_size)

unfoldable pub get_bucket : ℕ → Set → Option (Option SetNode × Set)
unfolding set_bucket
get_bucket index s =
    let bucket = index % s.size in
    let made : Option Set = elim (s.main_array (bucket / s.segment_size)) [
      | none ↦ set_bucket bucket none s
      | some cells ↦ some s
    ] in
    if ltb (bucket / s.segment_size) default_array_size
    then (made >>= λ s'. some (cell bucket s', s'))
    else none

-- The pointer in the cell of a bucket, after `initialize` has run if it was NULL.
unfoldable pub open_bucket : (initialize : Set → Option Set) → ℕ → Set → Option (SetNode × Set)
unfolding get_bucket
open_bucket initialize bucket s = do
  (found, s₁) ← get_bucket bucket s
  s₂ ← elim found [ none ↦ initialize s₁ | some x ↦ some s₁ ]
  (made, s₃) ← get_bucket bucket s₂
  elim made [ none ↦ none | some x ↦ some (x, s₃) ]

abbrev pub dummy : ℕ → SetNode
dummy bucket = record { element = 0; key = dummy_key bucket }

-- The first argument is fuel: `none` is also a recursion that has not ended within it.
unfoldable pub initialize_bucket : ℕ → ℕ → Set → Option Set
unfolding open_bucket set_bucket add_from
initialize_bucket zero bucket s = none
initialize_bucket (suc n) bucket s = do
  (start, s₁) ← open_bucket (initialize_bucket n (get_parent bucket)) (get_parent bucket) s
  (added, address, nodes) ← add_from start (dummy bucket) s₁.o_list
  set_bucket bucket (some address) (record s₁ { o_list = nodes })

-- The end of `insert`.
unfoldable pub grow : Set → Set
grow s =
    if ltb s.size (default_array_size * s.segment_size)
    then (if s.over (s.count / s.size) then record s { size = 2 * s.size } else s)
    else s

module _ (hash : ℕ → ℕ) where
  abbrev pub regular : ℕ → SetNode
  regular e = record { element = e; key = regular_key (hash e) }

  unfoldable pub bucket_of : ℕ → Set → Option (SetNode × Set)
  unfolding open_bucket initialize_bucket
  bucket_of e s =
      let bucket = hash e % s.size in open_bucket (initialize_bucket (suc bucket) bucket) bucket s

  unfoldable pub insert : ℕ → Set → Option (Bool × Set)
  unfolding bucket_of add_from grow
  insert e s = do
    (start, s₁) ← bucket_of e s
    (added, address, nodes) ← add_from start (regular e) s₁.o_list
    some (
        if added
        then (true, grow (record s₁ { o_list = nodes; count = suc s₁.count }))
        else (false, record s₁ { o_list = nodes }))

  unfoldable pub remove : ℕ → Set → Option (Bool × Set)
  unfolding bucket_of remove_from
  remove e s = do
    (start, s₁) ← bucket_of e s
    (removed, nodes) ← remove_from start (regular e) s₁.o_list
    some (removed, record s₁ { o_list = nodes; count = if removed then s₁.count - 1 else s₁.count })

  unfoldable pub search : ℕ → Set → Option (Bool × Set)
  unfolding bucket_of search_from
  search e s = do
    (start, s₁) ← bucket_of e s
    found ← search_from start (regular e) s₁.o_list
    some (found, s₁)

-- The constructor.
unfoldable pub init : (expected_set_size : ℕ) (over : ℕ → Bool) → Option Set
unfolding set_bucket add_at get_largest_value dummy_key
init expected_set_size over =
    let wanted = shl (get_largest_value (expected_set_size / default_array_size)) 1 in
    let a = add_at (dummy 0) [] in
    set_bucket 0 (some (a.1)) (record {
      size = 2;
      count = 0;
      segment_size = if ltb wanted 8 then 8 else wanted;
      over = over;
      main_array = λ _. none;
      o_list = a.2;
    })

unfoldable pub empty : Set → Bool
empty s = s.count == 0
