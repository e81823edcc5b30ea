-- ===== src/Queue/Safety.antt =====
-- include/amino/queue.h: the queue under every interleaving of its threads.
use amino.Prelude.{ℕ, ◌≡◌, ◌≢◌, refl, List, [], ◌∷◌, map}
use amino.Queue.Shape.{In-All}
use amino.Queue.Memory.{linked, Memory, Event}
use amino.Queue.System.{System, Run, AllGuarded, start, later, SpecRun, empty, next}
use amino.Queue.Invariant.{Chain, In, Inv, contents}
use amino.Queue.Preserve.{Step-Inv, Inv-init}

pub Run-Inv :
    {dummy : ℕ} {es : List Event} {s : System}
    → dummy ≢ 0
    → (r : Run dummy es s) → AllGuarded r
    → (l : List ℕ) × Inv s.mem s.pc l × SpecRun es (contents s.mem l)
Run-Inv {dummy} nz start u = ([], Inv-init dummy nz, empty)
Run-Inv nz (later r st) u =
    let (l, inv, sp) = Run-Inv nz r u.0 in
    let (l', inv', sp') = Step-Inv inv st u.1 in (l', inv', next sp sp')

-- The nodes after the head hold the values `q`, first element first.
abbrev pub Holds : Memory → List ℕ → Type 0
Holds m q = (l : List ℕ) × Chain m.next (m.next m.head) l × (map m.value l ≡ q)

-- Linearizability. In an execution of any number of threads that enqueue and dequeue, the allocator may take back a
-- removed node and give it out again; the theorem is about the executions in which it takes back no node while a
-- thread uses it: the tail that an enqueue checked, the head that a dequeue checked and, once it found the tail past
-- it, the node after it. (The code's hazard pointers do not ensure this for the head.) Then the events form a run of a
-- sequential first-in-first-out queue in the order of the steps that carry them, values returned included, and in
-- the end the nodes after the head hold the contents of that queue.
pub queue-linearizable :
    (dummy : ℕ) (es : List Event) (s : System)
    → dummy ≢ 0
    → (r : Run dummy es s) → AllGuarded r
    → (q : List ℕ) × SpecRun es q × Holds s.mem q
queue-linearizable dummy es s nz r u =
    let (l, inv, sp) = Run-Inv nz r u in (contents s.mem l, sp, (l, inv.shape.chain.2, refl))

-- In every such execution the tail never falls behind the head: it names the head or a node after it, so never a
-- node that was removed.
pub tail_not_behind :
    (dummy : ℕ) (es : List Event) (s : System)
    → dummy ≢ 0
    → (r : Run dummy es s) → AllGuarded r
    → (l : List ℕ) × Chain s.mem.next s.mem.head (s.mem.head ∷ l)
      × In s.mem.tail (s.mem.head ∷ l)
      × (s.mem.owner s.mem.tail ≡ linked)
tail_not_behind dummy es s nz r u =
    let (l, inv, sp) = Run-Inv nz r u in
    (
      l,
      inv.shape.chain,
      inv.shape.tail_in,
      In-All (λ a. s.mem.owner a ≡ linked) s.mem.tail (s.mem.head ∷ l) inv.shape.linked_all
          inv.shape.tail_in,
    )
