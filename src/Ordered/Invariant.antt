-- ===== src/Ordered/Invariant.antt =====
-- What the locals of a thread say about the memory, and the list that the cells lead through.
use amino.Prelude.{ℕ, Bool, true, false, ◌≡◌, ◌≢◌, ◌<◌, ◌⊎◌, List, All}
use amino.Queue.Invariant.{In}
use amino.Ordered.Memory.{
  Owner, free, fresh, linked, unlinked, Memory, Goal, inserting, removing, searching, cleaning,
  key_of, Pc, idle, find_load, find_check, loop, reread, recheck, unlink, add_store, add_cas,
  remove_mark, remove_cut,
}
use amino.Ordered.Splice.{Linked, Rising}
use amino.Ordered.Live.{live, rank}

abbrev pub contents : Memory → List ℕ → List ℕ
contents m l = live m.marked m.key l

-- A node that stands in the list, or stood in it.
abbrev pub is_published : Owner → Bool
is_published free = false
is_published (fresh t) = false
is_published linked = true
is_published unlinked = true

abbrev pub IsPublished : Memory → ℕ → Type 0
IsPublished m a = is_published (m.owner a) ≡ true

abbrev pub Old : Memory → ℕ → Type 0
Old m a = (a ≡ 0) ⊎ IsPublished m a

-- The new node of thread `t`.
abbrev pub IsNew : Memory → (t d node : ℕ) → Type 0
IsNew m t d node =
    (m.owner node ≡ fresh t) × (node ≢ 0) × (m.key node ≡ d) × (m.marked node ≡ false)

-- The cell stands before all keys from `d` on.
abbrev pub IsPrev : Memory → (d prev : ℕ) → Type 0
IsPrev m d prev = (prev ≡ 0) ⊎ (IsPublished m prev × (m.key prev < d))

abbrev pub IsBeyond : Memory → (d cur : ℕ) → Type 0
IsBeyond m d cur = (cur ≡ 0) ⊎ (IsPublished m cur × (d < m.key cur))

-- A removed node, whose pointer does not change any more.
abbrev pub IsDead : Memory → (cur next : ℕ) → Type 0
IsDead m cur next = (m.marked cur ≡ true) × (m.next cur ≡ next)

abbrev pub IsFineGoal : Memory → ℕ → Goal → Type 0
IsFineGoal m t (inserting d node) = IsNew m t d node
IsFineGoal m t (removing d) = Unit
IsFineGoal m t (searching d) = Unit
IsFineGoal m t (cleaning d) = Unit

-- `saw t d found`: in its call thread t met a moment at which `d` was in the set, or was not.
abbrev pub IsFine : Memory → (ℕ → ℕ → Bool → Type 0) → ℕ → Pc → Type 0
IsFine m saw t idle = Unit
IsFine m saw t (find_load g) = IsFineGoal m t g
IsFine m saw t (find_check g cur) = IsFineGoal m t g
IsFine m saw t (loop g prev cur) =
    IsFineGoal m t g × IsPrev m (key_of g) prev × Old m cur × (cur ≡ 0 → saw t (key_of g) false)
IsFine m saw t (reread g prev cur next cmark) =
    IsFineGoal m t g
    × IsPrev m (key_of g) prev
    × IsPublished m cur
    × (cmark ≡ true → IsDead m cur next)
IsFine m saw t (recheck g prev cur next cmark) =
    IsFineGoal m t g
    × IsPrev m (key_of g) prev
    × IsPublished m cur
    × (Old m next ⊎ (m.owner cur ≡ unlinked))
    × (cmark ≡ true → IsDead m cur next)
    × (cmark ≡ false → m.key cur ≡ key_of g → saw t (key_of g) true)
    × (cmark ≡ false → next ≡ 0 → m.key cur < key_of g → saw t (key_of g) false)
IsFine m saw t (unlink g prev cur next) =
    IsFineGoal m t g × IsPrev m (key_of g) prev × IsPublished m cur × IsDead m cur next
IsFine m saw t (add_store d node prev cur) = IsNew m t d node × IsPrev m d prev × IsBeyond m d cur
IsFine m saw t (add_cas d node prev cur) =
    IsNew m t d node × IsPrev m d prev × IsBeyond m d cur × (m.next node ≡ cur)
IsFine m saw t (remove_mark d prev cur next) = IsPrev m d prev × IsPublished m cur × (m.key cur ≡ d)
IsFine m saw t (remove_cut d prev cur next) =
    IsPrev m d prev × IsPublished m cur × IsDead m cur next

-- The memory, with the nodes `l` in the list.
pub record IsSound (m : Memory) (l : List ℕ) : Type 0 where
  pub chain : Linked m.next 0 l
  pub rising : Rising (rank m.key) 0 l
  pub all : All (λ a. m.owner a ≡ linked) l
  pub live_in : (a : ℕ) → IsPublished m a → m.marked a ≡ false → In a l
  pub null : m.owner 0 ≡ free
  pub head : m.marked 0 ≡ false
  pub linked_in : (a : ℕ) → m.owner a ≡ linked → In a l
