-- ===== src/Ordered/System.antt =====
-- include/amino/ordered_list.h: threads over one list, interleaved in any order, and the ordered set that they see.
use amino.Prelude.{
  ℕ, Bool, true, false, ◌≡◌, ◌≢◌, ◌⊎◌, List, [], ◌∷◌, update, contains, ◌==◌, ltb, if◌then◌else◌,
}
use amino.Ordered.Memory.{
  Owner, unlinked, Memory, Event, silent, called, added, removed, answered, recycled, Pc, idle,
  find_load, find_check, loop, reread, recheck, unlink, add_store, add_cas, remove_mark, remove_cut,
}
use amino.Ordered.Moves.{Move}

pub record System : Type 0 where
  pub mem : Memory
  pub pc : ℕ → Pc

pub data Step (s : System) : Event → System → Type 0 where
  -- A step of thread `t`.
  pick :
      (t : ℕ) {e : Event} {m : Memory} {p : Pc}
      → Move t s.mem (s.pc t) e m p
      → Step s e (record { mem = m; pc = update s.pc t p })
  -- The allocator takes back a node that was taken out of the list, and may give it out again.
  recycle :
      (a : ℕ)
      → s.mem.owner a ≡ unlinked
      → Step s
          (recycled a)
          (record s { mem = record s.mem { owner = update s.mem.owner a Owner.free } })

-- The constructor.
abbrev pub init : System
init = record {
  mem = record { key = λ _. 0; next = λ _. 0; marked = λ _. false; owner = λ _. Owner.free };
  pc = λ _. idle;
}

-- An execution, with its latest event first.
pub data Run : List Event → System → Type 0 where
  start : Run [] init
  later : {es : List Event} {s s' : System} {e : Event} → Run es s → Step s e s' → Run (e ∷ es) s'

-- The node `a` is one that the thread compares, follows or writes to: it must stay what it is as long as the thread
-- stands there.
abbrev pub Uses : Pc → ℕ → Type 0
Uses idle a = ⊥
Uses (find_load g) a = ⊥
Uses (find_check g cur) a = ⊥
Uses (loop g prev cur) a = (a ≡ prev) ⊎ (a ≡ cur)
Uses (reread g prev cur next cmark) a = (a ≡ prev) ⊎ (a ≡ cur)
Uses (recheck g prev cur next cmark) a = (a ≡ prev) ⊎ (a ≡ cur) ⊎ (a ≡ next)
Uses (unlink g prev cur next) a = (a ≡ prev) ⊎ (a ≡ cur)
Uses (add_store d node prev cur) a = (a ≡ prev) ⊎ (a ≡ cur)
Uses (add_cas d node prev cur) a = (a ≡ prev) ⊎ (a ≡ cur)
Uses (remove_mark d prev cur next) a = (a ≡ prev) ⊎ (a ≡ cur)
Uses (remove_cut d prev cur next) a = (a ≡ prev) ⊎ (a ≡ cur)

-- A step that takes a node back does so while no thread uses the node.
abbrev pub IsGuarded : {s s' : System} {e : Event} → Step s e s' → Type 0
IsGuarded (pick t mv) = Unit
IsGuarded {s} (recycle a h) = (t : ℕ) → Uses (s.pc t) a → ⊥

abbrev pub AllGuarded : {es : List Event} {s : System} → Run es s → Type 0
AllGuarded start = Unit
AllGuarded (later r st) = AllGuarded r × IsGuarded st

-- The ordered set: a list of keys, least first.
unfoldable pub insert : ℕ → List ℕ → List ℕ
insert d [] = d ∷ []
insert d (x ∷ q) = let rest = insert d q in if ltb d x then d ∷ x ∷ q else x ∷ rest

unfoldable pub delete : ℕ → List ℕ → List ℕ
delete d [] = []
delete d (x ∷ q) = let rest = delete d q in if d == x then q else x ∷ rest

-- The event is no call of thread `t`.
abbrev pub NoCall : ℕ → Event → Type 0
NoCall t silent = Unit
NoCall t (called j) = j ≢ t
NoCall t (added d) = Unit
NoCall t (removed d) = Unit
NoCall t (answered j d found) = Unit
NoCall t (recycled a) = Unit

-- Since the latest call of thread `t` there was a moment at which `d` was in the set, or was not: for the events
-- and the sets after each of them, the latest first.
abbrev pub Saw : (t d : ℕ) → Bool → List Event → List (List ℕ) → Type 0
Saw t d found es [] = ⊥
Saw t d found [] (q ∷ qs) = contains d q ≡ found
Saw t d found (e ∷ es) (q ∷ qs) = (contains d q ≡ found) ⊎ (NoCall t e × Saw t d found es qs)

-- What an event does to the set `q`, where `saw t d found` is what thread t saw since its call.
abbrev pub Spec : (ℕ → ℕ → Bool → Type 0) → Event → List ℕ → List ℕ → Type 0
Spec saw silent q q' = q' ≡ q
Spec saw (called t) q q' = q' ≡ q
Spec saw (added d) q q' = (contains d q ≡ false) × (q' ≡ insert d q)
Spec saw (removed d) q q' = (contains d q ≡ true) × (q' ≡ delete d q)
Spec saw (answered t d found) q q' = (q' ≡ q) × saw t d found
Spec saw (recycled a) q q' = q' ≡ q

-- The runs of the set: the events and the sets after each of them, down to the empty set at the start.
pub data Replay : List Event → List (List ℕ) → Type 0 where
  nothing : Replay [] ([] ∷ [])
  next :
      {es : List Event} {qs : List (List ℕ)} {e : Event} {q q' : List ℕ}
      → Replay es (q ∷ qs)
      → Spec (λ t d found. Saw t d found es (q ∷ qs)) e q q'
      → Replay (e ∷ es) (q' ∷ q ∷ qs)
