-- ===== src/Queue/Invariant.antt =====
-- What the locals of a thread say about the memory, and the list that the queue stands for.
use amino.Prelude.{ℕ, ◌≡◌, ◌≢◌, ◌⊎◌, Bool, true, false, List, [], ◌∷◌, map, All, IsNodup}
use amino.Queue.Memory.{
  Owner, free, fresh, linked, removed, Memory, Pc, idle, enq_load, enq_check, enq_next, enq_recheck,
  enq_help, enq_cas, enq_swing, deq_load, deq_check, deq_next, deq_recheck, deq_tail, deq_help,
  deq_data, deq_cas,
}

-- The nodes from `p` on, down to NULL.
abbrev pub Chain : (ℕ → ℕ) → ℕ → List ℕ → Type 0
Chain next p [] = p ≡ 0
Chain next p (a ∷ l) = (p ≡ a) × (a ≢ 0) × Chain next (next a) l

abbrev pub In : ℕ → List ℕ → Type 0
In a [] = ⊥
In a (b ∷ l) = (a ≡ b) ⊎ In a l

-- A node that stands in the queue, or stood in it.
abbrev pub is_published : Owner → Bool
is_published free = false
is_published (fresh t) = false
is_published linked = true
is_published removed = true

-- A node that is the head, or was it.
abbrev pub WasHead : Memory → ℕ → Type 0
WasHead m p = (m.head ≡ p) ⊎ (m.owner p ≡ removed)

-- If the node is still the head, the tail is past it.
abbrev pub TailPast : Memory → ℕ → Type 0
TailPast m p = ((m.head ≡ p) × (m.tail ≢ p)) ⊎ (m.owner p ≡ removed)

abbrev pub IsNew : Memory → ℕ → ℕ → ℕ → Type 0
IsNew m t d node = (m.owner node ≡ fresh t) × (node ≢ 0) × (m.value node ≡ d) × (m.next node ≡ 0)

abbrev pub IsPublished : Memory → ℕ → Type 0
IsPublished m p = is_published (m.owner p) ≡ true

abbrev pub Follows : Memory → ℕ → ℕ → Type 0
Follows m p nx = IsPublished m p × (nx ≢ 0) × (m.next p ≡ nx)

abbrev pub IsFine : Memory → ℕ → Pc → Type 0
IsFine m t idle = Unit
IsFine m t (enq_load d node) = IsNew m t d node
IsFine m t (enq_check d node pt) = IsNew m t d node
IsFine m t (enq_next d node pt) = IsNew m t d node × IsPublished m pt
IsFine m t (enq_recheck d node pt nx) =
    IsNew m t d node × IsPublished m pt × ((nx ≡ 0) ⊎ Follows m pt nx)
IsFine m t (enq_help d node pt nx) = IsNew m t d node × Follows m pt nx
IsFine m t (enq_cas d node pt) = IsNew m t d node × IsPublished m pt
IsFine m t (enq_swing node pt) = Follows m pt node
IsFine m t deq_load = Unit
IsFine m t (deq_check ph) = Unit
IsFine m t (deq_next ph) = IsPublished m ph × WasHead m ph
IsFine m t (deq_recheck ph nx) = Follows m ph nx × WasHead m ph
IsFine m t (deq_tail ph nx) = Follows m ph nx × WasHead m ph
IsFine m t (deq_help ph nx) = Follows m ph nx × WasHead m ph
IsFine m t (deq_data ph nx) =
    Follows m ph nx × TailPast m ph × (IsPublished m nx ⊎ (m.owner ph ≡ removed))
IsFine m t (deq_cas ph nx r) =
    Follows m ph nx
    × TailPast m ph
    × ((IsPublished m nx × (m.value nx ≡ r)) ⊎ (m.owner ph ≡ removed))

-- The nodes after the head, in order.
pub record Shape (m : Memory) (l : List ℕ) : Type 0 where
  pub chain : Chain m.next m.head (m.head ∷ l)
  pub nodup : IsNodup (m.head ∷ l)
  pub linked_all : All (λ a. m.owner a ≡ linked) (m.head ∷ l)
  pub linked_only : (a : ℕ) → m.owner a ≡ linked → In a (m.head ∷ l)
  pub removed_next : (a : ℕ) → m.owner a ≡ removed → m.next a ≢ 0
  pub tail_in : In m.tail (m.head ∷ l)

pub record Inv (m : Memory) (pc : ℕ → Pc) (l : List ℕ) : Type 0 where
  pub shape : Shape m l
  pub fine : (t : ℕ) → IsFine m t (pc t)

-- The queue as its users see it.
abbrev pub contents : Memory → List ℕ → List ℕ
contents m l = map m.value l
