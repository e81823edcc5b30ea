-- ===== src/Stack/Spec.antt =====
-- What a stack promises, as a list with its top first.
use amino.Prelude.{ℕ, ◌≡◌, List, [], ◌∷◌}
use amino.Stack.Memory.{Event, silent, pushed, popped, peeked, found_empty}

-- `Spec e l l'`: the event `e` takes a stack that holds `l` to one that holds `l'`.
abbrev pub Spec : Event → List ℕ → List ℕ → Type 0
Spec silent l l' = l' ≡ l
Spec (pushed d) l l' = l' ≡ d ∷ l
Spec (popped d) l l' = l ≡ d ∷ l'
Spec (peeked d) l l' = (l' ≡ l) × (r : List ℕ) × (l ≡ d ∷ r)
Spec found_empty l l' = (l' ≡ l) × (l ≡ [])
