-- ===== src/Blocking/Order.antt =====
-- include/amino/bdeque.h, deque.h: a double-ended list, as the users of a deque see it.
use amino.Prelude.{ℕ, List, [], ◌∷◌, ◌++◌}
use amino.Blocking.{End, left, right, Event, silent, added, removed, found_empty, notified}

-- What an event does to the list, left end first.
pub data Spec : Event → List ℕ → List ℕ → Type 0 where
  skip : {q : List ℕ} → Spec silent q q
  notify : {q : List ℕ} → Spec notified q q
  add_left : {d : ℕ} {q : List ℕ} → Spec (added left d) q (d ∷ q)
  add_right : {d : ℕ} {q : List ℕ} → Spec (added right d) q (q ++ d ∷ [])
  remove_left : {d : ℕ} {q : List ℕ} → Spec (removed left d) (d ∷ q) q
  remove_right : {d : ℕ} {q : List ℕ} → Spec (removed right d) (q ++ d ∷ []) q
  miss : {e : End} → Spec (found_empty e) [] []

-- The runs of the list, with the latest event first.
pub data Replay : List Event → List ℕ → Type 0 where
  nothing : Replay [] []
  next :
      {es : List Event} {e : Event} {q q' : List ℕ} → Replay es q → Spec e q q' → Replay (e ∷ es) q'
