-- ===== src/Stack/Invariant/Defs.antt =====
-- What the locals of a thread say about the memory, and the list that the stack stands for.
use amino.Prelude.{ℕ, ◌≡◌, ◌≢◌, ◌<◌, Bool, true, false, List, [], ◌∷◌, map, All, IsNodup, contains}
use amino.Stack.Memory.{
  Owner, free, fresh, linked, taken, retired, Memory, Pc, idle, push_load, push_link, push_cas,
  pop_load, pop_employ, pop_check, pop_next, pop_cas, pop_retire, pop_read, pop_delete, scan_hp,
  scan_free, pop_return, peek_load, peek_employ, peek_check, peek_read, peek_retire, peek_return,
}

-- The nodes from `p` on, down to NULL.
abbrev pub Chain : (ℕ → ℕ) → ℕ → List ℕ → Type 0
Chain next p [] = p ≡ 0
Chain next p (a ∷ l) = (p ≡ a) × (a ≢ 0) × Chain next (next a) l

-- The node that a thread may still read, and whose address it may compare with `top`.
abbrev pub Protects : Pc → ℕ → Type 0
Protects (pop_next old) a = old ≡ a
Protects (pop_cas old new) a = old ≡ a
Protects (peek_read old v) a = old ≡ a
Protects _ a = ⊥

-- A node that was pushed and has not gone back to the allocator: nobody writes its fields.
abbrev pub is_settled : Owner → Bool
is_settled free = false
is_settled (fresh t) = false
is_settled linked = true
is_settled (taken t) = true
is_settled (retired t) = true

-- The first `k` hazard pointers of `pc` shield every node of thread `t` that they cover.
abbrev pub Scanned : ℕ → Memory → (ℕ → Pc) → ℕ → ℕ → List ℕ → Type 0
Scanned n m pc t k plist =
    (i a : ℕ) → i < n → i < k → m.owner a ≡ retired t → Protects (pc i) a → contains a plist ≡ true

abbrev pub IsFine : ℕ → Memory → (ℕ → Pc) → ℕ → Pc → Type 0
IsFine n m pc t idle = Unit
IsFine n m pc t (push_load d node) = (m.owner node ≡ fresh t) × (node ≢ 0) × (m.value node ≡ d)
IsFine n m pc t (push_link d node old) = (m.owner node ≡ fresh t) × (node ≢ 0) × (m.value node ≡ d)
IsFine n m pc t (push_cas d node old) =
    (m.owner node ≡ fresh t) × (node ≢ 0) × (m.value node ≡ d) × (m.next node ≡ old)
IsFine n m pc t pop_load = Unit
IsFine n m pc t (pop_employ old) = old ≢ 0
IsFine n m pc t (pop_check old) = (old ≢ 0) × (m.hp t ≡ old)
IsFine n m pc t (pop_next old) = (old ≢ 0) × (m.hp t ≡ old) × (is_settled (m.owner old) ≡ true)
IsFine n m pc t (pop_cas old new) =
    (old ≢ 0) × (m.hp t ≡ old) × (is_settled (m.owner old) ≡ true) × (m.next old ≡ new)
IsFine n m pc t (pop_retire old v) = (m.owner old ≡ taken t) × (m.value old ≡ v)
IsFine n m pc t (pop_read old v) = (m.owner old ≡ taken t) × (m.value old ≡ v)
IsFine n m pc t (pop_delete old r v) = (m.owner old ≡ taken t) × (r ≡ v)
IsFine n m pc t (scan_hp r v k plist) = (r ≡ v) × Scanned n m pc t k plist
IsFine n m pc t (scan_free r v plist) = (r ≡ v) × Scanned n m pc t n plist
IsFine n m pc t (pop_return r v) = r ≡ v
IsFine n m pc t peek_load = Unit
IsFine n m pc t (peek_employ old) = old ≢ 0
IsFine n m pc t (peek_check old) = (old ≢ 0) × (m.hp t ≡ old)
IsFine n m pc t (peek_read old v) =
    (old ≢ 0) × (m.hp t ≡ old) × (is_settled (m.owner old) ≡ true) × (m.value old ≡ v)
IsFine n m pc t (peek_retire r v) = r ≡ v
IsFine n m pc t (peek_return r v) = r ≡ v

pub record Shape (m : Memory) (l : List ℕ) : Type 0 where
  pub chain : Chain m.next m.top l
  pub nodup : IsNodup l
  pub owned : All (λ a. m.owner a ≡ linked) l

pub record Inv (n : ℕ) (m : Memory) (pc : ℕ → Pc) (l : List ℕ) : Type 0 where
  pub shape : Shape m l
  pub fine : (t : ℕ) → t < n → IsFine n m pc t (pc t)

-- The stack as its users see it.
abbrev pub contents : Memory → List ℕ → List ℕ
contents m l = map m.value l
