-- ===== src/Queue/Good.antt =====
-- What is shown of one step, and the steps that write nothing, or only the tail.
use amino.Prelude.{ℕ, ◌≡◌, inl, inr, refl, sym, ◌∙◌, List, arith}
use amino.Queue.Memory.{Memory, Pc, Event, silent}
use amino.Queue.System.{Spec}
use amino.Queue.Invariant.{In, Follows, IsFine, Shape, contents}
use amino.Queue.Grows.{Grows}
use amino.Queue.Shape.{Shape-tail, In-next, NotIn-ne}

pub record Good (m m' : Memory) (t : ℕ) (p' : Pc) (l : List ℕ) (e : Event) : Type 0 where
  pub grows : Grows m m' t
  pub own : IsFine m' t p'
  pub after : List ℕ
  pub shape : Shape m' after
  pub spec : Spec e (contents m l) (contents m' after)

pub Grows-refl : (m : Memory) (t : ℕ) → Grows m m t
Grows-refl m t = record {
  mine = λ j a ne o. (o, refl, refl);
  published = λ a p. (p, refl);
  once = λ a p n. refl;
  gone = λ a r. r;
  head = λ a h. inl h;
  tail = λ a h n. inl n;
}

-- A step that only reads.
pub reads :
    {m : Memory} {t : ℕ} {l : List ℕ} {p' : Pc} {e : Event}
    → Shape m l
    → IsFine m t p'
    → Spec e (contents m l) (contents m l)
    → Good m m t p' l e
reads {m} {t} {l} s f sp = record {
  grows = Grows-refl m t;
  own = f;
  after = l;
  shape = s;
  spec = sp;
}

-- The tail goes to the next node, which is not the head.
pub advances :
    {m : Memory} {t pt nx : ℕ} {l : List ℕ} {p' : Pc}
    → Shape m l
    → m.tail ≡ pt
    → Follows m pt nx
    → IsFine (record m { tail = nx }) t p'
    → Good m (record m { tail = nx }) t p' l silent
advances {m} {t} {pt} {nx} {l} s h y f = record {
  grows = record {
    mine = λ j a ne o. (o, refl, refl);
    published = λ a p. (p, refl);
    once = λ a p n. refl;
    gone = λ a r. r;
    head = λ a e. inl e;
    tail = λ a e n. inl (λ z. NotIn-ne m.head nx l s.nodup.0 there (e ∙ sym z));
  };
  own = f;
  after = l;
  shape = Shape-tail m l s nx (inr there);
  spec = refl;
}
  where
    there : In nx l
    there = In-next m.next m.head m.tail nx m.head l s.chain s.tail_in (ground (arith, h, y.2)) y.1
