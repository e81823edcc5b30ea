-- ===== src/Deque/Safety.antt =====
-- include/amino/deque.h: the deque under every interleaving of its threads.
use amino.Prelude.{ℕ, ◌≡◌, ◌≢◌, refl, subst, List, [], map}
use amino.Blocking.{Event, left, right}
use amino.Blocking.Order.{Replay, nothing, next}
use amino.Deque.Memory.{Memory, pushing, end_of, pop_return}
use amino.Deque.Views.{rev, first, Toward}
use amino.Deque.System.{System, Run, start, later}
use amino.Deque.Invariant.{contents, IsFine}
use amino.Deque.Preserve.{Inv, Step-Inv, Inv-init}

pub Run-Inv :
    {es : List Event} {s : System}
    → Run es s
    → (l : List ℕ) × Inv s.mem s.pc l × Replay es (contents s.mem l)
Run-Inv start = ([], Inv-init, nothing)
Run-Inv (later r st) =
    let (l, inv, sp) = Run-Inv r in let (l', inv', sp') = Step-Inv inv st in (l', inv', next sp sp')

-- The ends of the anchor and the links between the nodes hold the values `q`, left end first. The link to a
-- node that was just pushed may still be missing: then the status says so.
pub record Holds (m : Memory) (q : List ℕ) : Type 0 where
  pub nodes : List ℕ
  pub values : map m.value nodes ≡ q
  pub at_left : end_of left m.anchor ≡ first nodes
  pub at_right : end_of right m.anchor ≡ first (rev nodes)
  pub leftward : m.anchor.status ≢ pushing left → Toward m.to_left nodes
  pub rightward : m.anchor.status ≢ pushing right → Toward m.to_right (rev nodes)

-- Linearizability: in any execution of any number of threads that push and pop at both ends, as long as no node is
-- given out twice, the events form a run of a sequential double-ended list in the order of the steps that carry
-- them, and in the end the anchor and the links hold the contents of that list.
pub deque-linearizable :
    (es : List Event) (s : System) → Run es s → (q : List ℕ) × Replay es q × Holds s.mem q
deque-linearizable es s r =
    let (l, inv, sp) = Run-Inv r in
    let sh = inv.sound.shape in
    (
      contents s.mem l,
      sp,
      record {
        nodes = l;
        values = refl;
        at_left = sh.near.starts;
        at_right = sh.far.starts;
        leftward = sh.near.firm;
        rightward = sh.far.firm;
      },
    )

-- What a pop returns, which it reads after the node has left the deque, is the element that it removed.
pub pop_returns_removed :
    (es : List Event) (s : System) (t r v : ℕ) → Run es s → s.pc t ≡ pop_return r v → r ≡ v
pop_returns_removed es s t r v run h =
    let (l, inv, sp) = Run-Inv run in subst (λ p. IsFine s.mem l t p) h (inv.fine t)
