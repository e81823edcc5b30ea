-- ===== src/HashSet/Nodes.antt =====
-- include/amino/lockfree_set.h, ordered_list.h: SetNode, and the ordered list of such nodes for one call at a time.
use amino.Prelude.{
  ℕ, Bool, true, false, List, [], ◌∷◌, Option, none, some, ◌==◌, leb, ◌&&◌, if◌then◌else◌,
}

-- A pointer to a node is the node: no two nodes of the list are equal, and a dummy node is not taken out.
pub record SetNode : Type 0 where
  pub element : ℕ
  pub key : ℕ

abbrev pub node_eq : SetNode → SetNode → Bool
node_eq x y = (x.key == y.key) && (x.element == y.element)

abbrev pub node_ge : SetNode → SetNode → Bool
node_ge x y = if x.key == y.key then leb y.element x.element else leb y.key x.key

-- `add` and `add_returnAddress` from a cell on: whether the node was added, its address, and the list from the cell on.
unfoldable pub add_at : SetNode → List SetNode → Bool × SetNode × List SetNode
add_at e [] = (true, e, e ∷ [])
add_at e (x ∷ l) =
    let (b, a, l') = add_at e l in
    if node_ge x e
    then (if node_eq x e then (false, x, x ∷ l) else (true, e, e ∷ x ∷ l))
    else (b, a, x ∷ l')

-- The same from a pointer to the node `start` that is kept in a local variable: a new node in front of `start` is
-- stored there only. `none` is a pointer to no node of the list.
unfoldable pub add_from :
    (start e : SetNode) → List SetNode → Option (Bool × SetNode × List SetNode)
unfolding add_at
add_from start e [] = none
add_from start e (x ∷ l) =
    let rest = add_from start e l in
    let (b, a, l') = add_at e l in
    if node_eq x start
    then some (
        if node_ge x e
        then (if node_eq x e then (false, x, x ∷ l) else (true, e, x ∷ l))
        else (b, a, x ∷ l'))
    else elim rest [ none ↦ none | some (b', a', l'') ↦ some (b', a', x ∷ l'') ]

-- `remove`.
unfoldable pub remove_at : SetNode → List SetNode → Bool × List SetNode
remove_at e [] = (false, [])
remove_at e (x ∷ l) =
    let (b, l') = remove_at e l in
    if node_ge x e then (if node_eq x e then (true, l) else (false, x ∷ l)) else (b, x ∷ l')

-- `none` stands for the removal of `start` itself too, which would leave it in the list with a mark.
unfoldable pub remove_from : (start e : SetNode) → List SetNode → Option (Bool × List SetNode)
unfolding remove_at
remove_from start e [] = none
remove_from start e (x ∷ l) =
    let rest = remove_from start e l in
    let (b, l') = remove_at e l in
    if node_eq x start
    then (if node_ge x e
        then (if node_eq x e then none else some (false, x ∷ l))
        else some (b, x ∷ l'))
    else elim rest [ none ↦ none | some (b', l'') ↦ some (b', x ∷ l'') ]

-- `search`.
unfoldable pub search_at : SetNode → List SetNode → Bool
search_at e [] = false
search_at e (x ∷ l) = let rest = search_at e l in if node_ge x e then node_eq x e else rest

unfoldable pub search_from : (start e : SetNode) → List SetNode → Option Bool
unfolding search_at
search_from start e [] = none
search_from start e (x ∷ l) =
    let rest = search_from start e l in
    if node_eq x start then some (if node_ge x e then node_eq x e else search_at e l) else rest
