-- ===== src/Queue/Whole.antt =====
-- include/amino/queue.h: `empty`, `size` and the destructor, on the memory of one moment.
use amino.Prelude.{
  ℕ, zero, suc, ◌+◌, ◌≡◌, ◌≢◌, ◌<◌, ◌↔◌, refl, sym, ◌∙◌, ap, Bool, true, List, [], ◌∷◌, arith,
  Option, none, some, ◌==◌, if◌then◌else◌, length, map, subst, IsNodup,
}
use amino.Queue.Memory.{Memory, Event}
use amino.Queue.System.{System, Run, AllGuarded, SpecRun}
use amino.Queue.Invariant.{Chain, contents}
use amino.Queue.Safety.{Run-Inv}

pub empty : Memory → Bool
empty m = m.next m.head == 0

-- The loop of `size`, which ends at the tail; `none` is a loop that has not ended within the fuel.
pub size_loop : ℕ → Memory → ℕ → ℕ → Option ℕ
size_loop zero m front result = none
size_loop (suc n) m front result =
    let rest = size_loop n m (m.next front) (result + 1) in
    if front == 0 then some result else if front == m.tail then some (result + 1) else rest

pub size : ℕ → Memory → Option ℕ
unfolding size_loop
size fuel m = size_loop fuel m (m.next m.head) 0

-- The destructor: the nodes it deletes, in order.
pub destroy_loop : ℕ → Memory → ℕ → Option (List ℕ)
destroy_loop zero m first = none
destroy_loop (suc n) m first =
    let rest = destroy_loop n m (m.next first) in
    if first == 0 then some [] else elim rest [ none ↦ none | some l ↦ some (first ∷ l) ]

pub destroy : ℕ → Memory → Option (List ℕ)
unfolding destroy_loop
destroy fuel m = destroy_loop fuel m m.head

size_loop_lem :
    (n : ℕ) (m : Memory) (p r : ℕ) (l : List ℕ)
    → Chain m.next p l
    → m.next m.tail ≡ 0
    → length l < n
    → size_loop n m p r ≡ some (r + length l)
unfolding size_loop
size_loop_lem zero m p r l c z h = absurd (omega arith)
size_loop_lem (suc n) m p r [] c z h = ground (arith, c)
size_loop_lem (suc n) m p r (a ∷ []) c z h =
    ground (arith, c.0, c.1, c.2, size_loop_lem n m (m.next a) (r + 1) [] c.2 z)
size_loop_lem (suc n) m p r (a ∷ b ∷ l) c z h = ground (
  arith,
  c.0,
  c.1,
  c.2.0,
  c.2.1,
  z,
  size_loop_lem n m (m.next a) (r + 1) (b ∷ l) c.2 z (omega arith),
)

destroy_loop_lem :
    (n : ℕ) (m : Memory) (p : ℕ) (l : List ℕ)
    → Chain m.next p l
    → length l < n
    → destroy_loop n m p ≡ some l
unfolding destroy_loop
destroy_loop_lem zero m p l c h = absurd (omega arith)
destroy_loop_lem (suc n) m p [] c h = ground (arith, c)
destroy_loop_lem (suc n) m p (a ∷ l) c h =
    let rest : destroy_loop n m (m.next p) ≡ some l =
      subst (λ z. destroy_loop n m (m.next z) ≡ some l) (sym c.0)
        (destroy_loop_lem n m (m.next a) l c.2 (omega arith)) in
    ground (arith, c.0, c.1, rest)

empty_iff :
    (m : Memory) (l : List ℕ)
    → Chain m.next (m.next m.head) l
    → (empty m ≡ true) ↔ (map m.value l ≡ [])
unfolding empty
empty_iff m [] c = (λ h. refl, λ h. ground (arith, c))
empty_iff m (a ∷ l) c = (λ h. absurd (ground (arith, h, c.0, c.1)), λ h. absurd (ground (arith, h)))

length-map : (f : ℕ → ℕ) (l : List ℕ) → length (map f l) ≡ length l
length-map f [] = refl
length-map f (a ∷ l) = omega (arith, length-map f l)

-- In an execution in which the allocator takes back no node that a thread uses, at a moment at which the tail names
-- the last node, and with fuel above the number of nodes,
-- `size` counts the elements of the sequential queue that the events make, `empty` tells whether it has
-- none, and the destructor deletes the head and the node of every element, each once and in order.
pub queue_whole :
    (dummy n : ℕ) (es : List Event) (s : System)
    → dummy ≢ 0
    → (r : Run dummy es s) → AllGuarded r
    → s.mem.next s.mem.tail ≡ 0
    → (q l : List ℕ) × SpecRun es q
      × (contents s.mem l ≡ q)
      × (size (length q + suc n) s.mem ≡ some (length q))
      × ((empty s.mem ≡ true) ↔ (q ≡ []))
      × (destroy (length q + suc (suc n)) s.mem ≡ some (s.mem.head ∷ l))
      × IsNodup (s.mem.head ∷ l)
unfolding size destroy
queue_whole dummy n es s nz r u z =
    let (l, inv, sp) = Run-Inv nz r u in
    let c = inv.shape.chain in
    let len : length (map s.mem.value l) ≡ length l = length-map s.mem.value l in
    (
      map s.mem.value l,
      l,
      sp,
      refl,
      size_loop_lem (length (map s.mem.value l) + suc n) s.mem (s.mem.next s.mem.head) 0 l c.2 z
            (omega (arith, len))
          ∙ ap some (omega (arith, len)),
      empty_iff s.mem l c.2,
      destroy_loop_lem (length (map s.mem.value l) + suc (suc n)) s.mem s.mem.head (s.mem.head ∷ l)
          c (omega (arith, len)),
      inv.shape.nodup,
    )
