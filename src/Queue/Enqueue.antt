-- ===== src/Queue/Enqueue.antt =====
-- include/amino/queue.h, `enqueue`: each of its steps is good.
use amino.Prelude.{
  subst, ℕ, ◌≡◌, ◌⊎◌, inl, inr, refl, ◌∙◌, ap, List, [], ◌∷◌, ◌++◌, arith, update, map, map-update,
  ℕ_discrete,
}
use amino.Queue.Memory.{linked, Memory, Pc, enq_swing, Event, enqueued}
use amino.Queue.Moves.{EnqueueMove}
use amino.Queue.Invariant.{IsFine, IsNew, IsPublished, Follows, Shape}
use amino.Queue.Shape.{Shape-alloc, Shape-link, unlinked, tail-IsPublished}
use amino.Queue.Good.{Good, reads, advances}

map-snoc : (f : ℕ → ℕ) (a : ℕ) (l : List ℕ) → map f (l ++ a ∷ []) ≡ map f l ++ f a ∷ []
map-snoc f a [] = refl
map-snoc f a (b ∷ l) = ap (λ r. f b ∷ r) (map-snoc f a l)

module _ {m : Memory} (t : ℕ) (l : List ℕ) (s : Shape m l) where
  -- The new node hangs on the last one.
  links :
      (d node pt : ℕ)
      → IsNew m t d node
      → IsPublished m pt
      → m.next pt ≡ 0
      → Good m
          (record m { next = update m.next pt node; owner = update m.owner node linked })
          t
          (enq_swing node pt)
          l
          (enqueued d)
  links d node pt (o, nz, v, x) p z = record {
    grows = record {
      mine = λ j a ne k. ground (arith, o, p, ne, k);
      published = λ a k. ground (arith, o, k);
      once = λ a k n. ground (arith, z, n);
      gone = λ a r. ground (arith, o, r);
      head = λ a h. inl h;
      tail = λ a h n. inl n;
    };
    own = (ground (arith, p, o), nz, ground arith);
    after = l ++ node ∷ [];
    shape = Shape-link m l s t d node pt (o, nz, v, x) p z;
    spec = map-snoc m.value node l ∙ ap (λ r. map m.value l ++ r ∷ []) v;
  }

  pub enqueue-Good :
      {p p' : Pc} {e : Event} {m' : Memory}
      → EnqueueMove t m p e m' p'
      → IsFine m t p
      → Good m m' t p' l e
  enqueue-Good (EnqueueMove.alloc d node nz fr) f = record {
    grows = record {
      mine = λ j a ne k. ground (arith, fr, k);
      published = λ a k. ground (arith, fr, k);
      once = λ a k n. ground (arith, fr, k);
      gone = λ a r. ground (arith, fr, r);
      head = λ a h. inl h;
      tail = λ a h n. inl n;
    };
    own = (ground arith, nz, ground arith, ground arith);
    after = l;
    shape = Shape-alloc m l s t d node fr;
    spec = map-update m.value node d l (unlinked m l s node (λ h. ground (arith, fr, h))).1;
  }
  enqueue-Good EnqueueMove.load_tail f = reads s f refl
  enqueue-Good (EnqueueMove.changed h) f = reads s f refl
  enqueue-Good (EnqueueMove.checked h) f =
      reads s (f, subst (λ a. IsPublished m a) h (tail-IsPublished m l s)) refl
  enqueue-Good (EnqueueMove.load_next {d} {node} {pt}) f = reads s (f.0, f.1, next_of) refl
    where
      next_of : (m.next pt ≡ 0) ⊎ Follows m pt (m.next pt)
      next_of = elim (ℕ_discrete (m.next pt) 0) [ yes z ↦ inl z | no nz ↦ inr (f.1, nz, refl) ]
  enqueue-Good (EnqueueMove.moved h) f = reads s f.0 refl
  enqueue-Good (EnqueueMove.behind h nz) (new, p, inl z) = absurd (nz z)
  enqueue-Good (EnqueueMove.behind h nz) (new, p, inr y) = reads s (new, y) refl
  enqueue-Good (EnqueueMove.at_end h) f = reads s (f.0, f.1) refl
  enqueue-Good (EnqueueMove.help_win h) f = advances s h f.1 f.0
  enqueue-Good (EnqueueMove.help_lose h) f = reads s f.0 refl
  enqueue-Good (EnqueueMove.cas_win {d} {node} {pt} h) f = links d node pt f.0 f.1 h
  enqueue-Good (EnqueueMove.cas_lose h) f = reads s f.0 refl
  enqueue-Good (EnqueueMove.swing_win h) f = advances s h f tt
  enqueue-Good (EnqueueMove.swing_lose h) f = reads s tt refl
