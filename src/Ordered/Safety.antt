-- ===== src/Ordered/Safety.antt =====
-- include/amino/ordered_list.h: the list under every interleaving of its threads.
use amino.Prelude.{ℕ, ◌≡◌, refl, List, [], ◌∷◌}
use amino.Ordered.Memory.{Memory, Event}
use amino.Ordered.System.{System, Run, AllGuarded, start, later, Replay, nothing, next}
use amino.Ordered.Splice.{Linked, Rising}
use amino.Ordered.Live.{rank}
use amino.Ordered.Invariant.{contents}
use amino.Ordered.Preserve.{Inv, Step-Inv, Inv-init}

pub Run-Inv :
    {es : List Event} {s : System}
    → (r : Run es s) → AllGuarded r
    → (qs : List (List ℕ)) × (l : List ℕ) × Inv es qs s.mem s.pc l
      × Replay es (contents s.mem l ∷ qs)
Run-Inv start u = ([], [], Inv-init, nothing)
Run-Inv (later {s = s} r st) u =
    let (qs, l, inv, sp) = Run-Inv r u.0 in
    let (l', inv', sp') = Step-Inv inv st u.1 in (contents s.mem l ∷ qs, l', inv', next sp sp')

-- The cells from the head on lead through nodes with ascending keys, and the keys of those without a mark are `q`.
pub record Holds (m : Memory) (q : List ℕ) : Type 0 where
  pub nodes : List ℕ
  pub chain : Linked m.next 0 nodes
  pub ascending : Rising (rank m.key) 0 nodes
  pub keys : contents m nodes ≡ q

-- Linearizability. In an execution of any number of threads that insert, remove and search, the allocator may take back
-- a node that was taken out of the list and give it out again; the theorem is about the executions in which it takes
-- back no node while a thread uses it: the node of `prev`, the node `cur` and, when it checks `prev`, the node `next`.
-- (The code's hazard pointers do not ensure this for the node of `prev`.) Then the insertions and the removals that succeed form a run of an ordered set in the order of the
-- steps that carry them; a call that answers without a change saw, at a moment since it was called, that the
-- key was in the set, or that it was not; and in the end the linked nodes ascend and hold the set.
pub ordered_list-linearizable :
    (es : List Event) (s : System)
    → (r : Run es s) → AllGuarded r
    → (q : List ℕ) × (qs : List (List ℕ)) × Replay es (q ∷ qs) × Holds s.mem q
ordered_list-linearizable es s r u =
    let (qs, l, inv, sp) = Run-Inv r u in
    (
      contents s.mem l,
      qs,
      sp,
      record { nodes = l; chain = inv.sound.chain; ascending = inv.sound.rising; keys = refl },
    )
