-- ===== src/Deque/Invariant.antt =====
-- What the locals of a thread say about the memory and the list of nodes.
use amino.Prelude.{ℕ, suc, ◌≡◌, ◌≢◌, ◌<◌, ◌≤◌, ◌⊎◌, List, [], ◌∷◌, map}
use amino.Blocking.{End, left}
use amino.Queue.Invariant.{In}
use amino.Deque.Memory.{
  opp, side_of, stable, pushing, Anchor, end_of, Owner, free, fresh, pushed, Memory, link, After,
  done, push, pop, Pc, idle, push_load, push_first, push_link, push_cas, pop_load, pop_one,
  pop_one_cas, pop_left, pop_right, pop_check, pop_prev, pop_recheck, pop_cas, pop_read, pop_return,
  stab_left, stab_right, stab_check, stab_prev, stab_end, stab_recheck, stab_next, stab_again,
  stab_fix, stab_cas,
}
use amino.Deque.Views.{rev}
use amino.Deque.Shape.{IsPushed, Shape}

-- The nodes from end `e` on, for the list `l` from the left end on; and back.
abbrev pub view : End → List ℕ → List ℕ
view e l = side_of e l (rev l)

abbrev pub contents : Memory → List ℕ → List ℕ
contents m l = map m.value l

-- `x` does not come before `y`.
abbrev pub Ahead : (y x : ℕ) → List ℕ → Type 0
Ahead y x [] = Unit
Ahead y x (b ∷ v) = (b ≡ y) ⊎ ((b ≢ x) × Ahead y x v)

-- When a node was pushed, counted from 1; 0 before that.
abbrev pub born : Owner → ℕ
born free = 0
born (fresh t) = 0
born (pushed n) = suc n

abbrev pub Old : Memory → ℕ → Type 0
Old m a = (a ≡ 0) ⊎ IsPushed m a

-- The new node of thread `t`.
abbrev pub IsNew : Memory → (t d node : ℕ) → Type 0
IsNew m t d node =
    (m.owner node ≡ fresh t) × (node ≢ 0) × (m.value node ≡ d) × ((e : End) → Old m (link e m node))

-- `a` was the anchor when a node was just pushed at end `e`.
abbrev pub Snap : Memory → End → Anchor → Type 0
Snap m e a = (a.status ≡ pushing e) × IsPushed m (end_of e a)

-- The node `y` has not just been pushed at end `e`.
abbrev pub Settled : Memory → End → ℕ → Type 0
Settled m e y = m.anchor.status ≡ pushing e → end_of e m.anchor ≢ y

-- What a pop at end `e` keeps of the anchor `old`: its ends have not changed places.
pub record Watch (m : Memory) (l : List ℕ) (e : End) (old : Anchor) : Type 0 where
  pub still : old.status ≡ stable
  pub two : end_of e old ≢ end_of (opp e) old
  pub near : IsPushed m (end_of e old)
  pub far : IsPushed m (end_of (opp e) old)
  pub settled : Settled m (opp e) (end_of (opp e) old)
  pub ahead :
      In (end_of (opp e) old) (view (opp e) l)
      → Ahead (end_of (opp e) old) (end_of e old) (view (opp e) l)

abbrev pub Behind : Memory → List ℕ → End → Anchor → ℕ → Type 0
Behind m l e old prev =
    In (end_of (opp e) old) (view (opp e) l) → link (opp e) m (end_of e old) ≡ prev

abbrev pub IsSingle : Anchor → Type 0
IsSingle old = (old.status ≡ stable) × (old.at_left ≡ old.at_right) × (old.at_right ≢ 0)

abbrev pub Inner : Memory → End → Anchor → ℕ → Type 0
Inner m e a prev = m.anchor ≡ a → link (opp e) m (end_of e a) ≡ prev

abbrev pub Within : Memory → End → Anchor → ℕ → Type 0
Within m e a prev =
    ((m.anchor ≡ a) × (link (opp e) m (end_of e a) ≡ prev))
    ⊎ (born (m.owner (end_of e a)) ≤ born (m.owner (link e m prev)))

abbrev pub Older : Memory → End → Anchor → ℕ → Type 0
Older m e a next = born (m.owner next) < born (m.owner (end_of e a))

abbrev pub Fixed : Memory → End → Anchor → Type 0
Fixed m e a = m.anchor ≡ a → link e m (link (opp e) m (end_of e a)) ≡ end_of e a

abbrev pub IsFineAfter : Memory → ℕ → After → Type 0
IsFineAfter m t done = Unit
IsFineAfter m t (push e d node) = IsNew m t d node
IsFineAfter m t (pop e) = Unit

abbrev pub IsFine : Memory → List ℕ → ℕ → Pc → Type 0
IsFine m l t idle = Unit
IsFine m l t (push_load e d node) = IsNew m t d node
IsFine m l t (push_first e d node old) = IsNew m t d node × (end_of e old ≡ 0)
IsFine m l t (push_link e d node old) =
    IsNew m t d node × (old.status ≡ stable) × IsPushed m (end_of e old)
IsFine m l t (push_cas e d node old) =
    IsNew m t d node
    × (old.status ≡ stable)
    × IsPushed m (end_of e old)
    × (link (opp e) m node ≡ end_of e old)
IsFine m l t (pop_load e) = Unit
IsFine m l t (pop_one e old) = IsSingle old
IsFine m l t (pop_one_cas e old) = IsSingle old
IsFine m l t (pop_left e old) = Watch m l e old
IsFine m l t (pop_right e old) = Watch m l e old
IsFine m l t (pop_check e old) = Watch m l e old
IsFine m l t (pop_prev e old) = Watch m l e old
IsFine m l t (pop_recheck e old prev) = Watch m l e old × Behind m l e old prev
IsFine m l t (pop_cas e old prev) = Watch m l e old × Behind m l e old prev
IsFine m l t (pop_read x v) = IsPushed m x × (m.value x ≡ v)
IsFine m l t (pop_return r v) = r ≡ v
IsFine m l t (stab_left e a k) = IsFineAfter m t k × Snap m e a
IsFine m l t (stab_right e a k) = IsFineAfter m t k × Snap m e a
IsFine m l t (stab_check e a k) = IsFineAfter m t k × Snap m e a
IsFine m l t (stab_prev e a k) = IsFineAfter m t k × Snap m e a
IsFine m l t (stab_end e a prev k) = IsFineAfter m t k × Snap m e a × Inner m e a prev
IsFine m l t (stab_recheck e a prev k) = IsFineAfter m t k × Snap m e a × Inner m e a prev
IsFine m l t (stab_next e a prev k) =
    IsFineAfter m t k × Snap m e a × IsPushed m prev × Inner m e a prev
IsFine m l t (stab_again e a prev next k) =
    IsFineAfter m t k
    × Snap m e a
    × IsPushed m prev
    × Inner m e a prev
    × Old m next
    × (m.anchor ≡ a → Older m e a next)
IsFine m l t (stab_fix e a prev next k) =
    IsFineAfter m t k
    × Snap m e a
    × IsPushed m prev
    × Within m e a prev
    × Old m next
    × Older m e a next
IsFine m l t (stab_cas e a k) = IsFineAfter m t k × Snap m e a × Fixed m e a

-- The memory, with the nodes `l` in the deque.
pub record IsSound (m : Memory) (l : List ℕ) : Type 0 where
  pub shape : Shape m left l
  pub two : (e : End) → m.anchor.status ≡ pushing e → m.anchor.at_left ≢ m.anchor.at_right
  pub newest :
      (e : End)
      → m.anchor.status ≡ pushing e
      → (n : ℕ) × (m.owner (end_of e m.anchor) ≡ pushed n) × (suc n ≡ m.pushes)
  pub below : (a n : ℕ) → m.owner a ≡ pushed n → n < m.pushes
  pub apart : (a b n : ℕ) → m.owner a ≡ pushed n → m.owner b ≡ pushed n → a ≡ b
  pub links : (e : End) (a : ℕ) → IsPushed m a → Old m (link e m a)
  pub null : (n : ℕ) → m.owner 0 ≢ pushed n
