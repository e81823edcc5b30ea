-- ===== src/Queue/Dequeue.antt =====
-- include/amino/queue.h, `dequeue`: each of its steps is good.
use amino.Prelude.{
  subst, sym, ◌⊎◌, ℕ, ◌≡◌, inl, inr, refl, ◌∙◌, ap, List, [], ◌∷◌, arith, update, map,
}
use amino.Queue.Memory.{removed, Memory, Pc, idle, Event, dequeued}
use amino.Queue.Moves.{DequeueMove}
use amino.Queue.Invariant.{IsFine, IsPublished, WasHead, TailPast, Follows, Shape}
use amino.Queue.Shape.{Shape-remove, next-IsPublished}
use amino.Queue.Good.{Good, reads, advances}

module _ {m : Memory} (t : ℕ) (l : List ℕ) (s : Shape m l) where
  -- The next node becomes the head.
  removes :
      (ph nx r : ℕ)
      → m.head ≡ ph
      → Follows m ph nx
      → TailPast m ph
      → m.value nx ≡ r
      → Good m (record m { head = nx; owner = update m.owner ph removed }) t idle l (dequeued r)
  removes ph nx r h y past v =
      let (k, shape_l, shape_k) = Shape-remove m l ph nx s h y past in
      record {
        grows = record {
          mine = λ j a ne o. ground (arith, o, y.0);
          published = λ a p. ground (arith, p);
          once = λ a p n. refl;
          gone = λ a g. ground (arith, g);
          head = λ a e. inr (ground (arith, e, h));
          tail = λ a e n. inl n;
        };
        own = tt;
        after = k;
        shape = shape_k;
        spec = ap (map m.value) shape_l ∙ ap (λ z. z ∷ map m.value k) v;
      }

  -- A node that was the head and has no next node is the head of an empty queue.
  empty_here : (ph : ℕ) → WasHead m ph → m.next ph ≡ 0 → l ≡ []
  empty_here ph (inr r) z = absurd (s.removed_next ph r z)
  empty_here ph (inl h) z = alone l s
    where
      alone : (l : List ℕ) → Shape m l → l ≡ []
      alone [] s = refl
      alone (b ∷ l) s = absurd (ground (arith, s.chain.2.0, s.chain.2.1, h, z))

  pub dequeue-Good :
      {p p' : Pc} {e : Event} {m' : Memory}
      → DequeueMove t m p e m' p'
      → IsFine m t p
      → Good m m' t p' l e
  dequeue-Good DequeueMove.call f = reads s tt refl
  dequeue-Good DequeueMove.load_head f = reads s tt refl
  dequeue-Good (DequeueMove.changed h) f = reads s tt refl
  dequeue-Good (DequeueMove.checked h) f = reads s (ground (arith, h, s.linked_all.0), inl h) refl
  dequeue-Good (DequeueMove.load_null {ph} z) f =
      reads s tt (refl, ap (map m.value) (empty_here ph f.1 z))
  dequeue-Good (DequeueMove.load_next {ph} nz) f = reads s ((f.0, nz, refl), f.1) refl
  dequeue-Good (DequeueMove.moved h) f = reads s tt refl
  dequeue-Good (DequeueMove.stayed h) f = reads s f refl
  dequeue-Good (DequeueMove.tail_behind h) f = reads s f refl
  dequeue-Good (DequeueMove.tail_ahead {ph} {nx} h) f = reads s (f.0, past f.1, there f.1) refl
    where
      past : WasHead m ph → TailPast m ph
      past (inl e) = inl (e, h)
      past (inr r) = inr r

      there : WasHead m ph → IsPublished m nx ⊎ (m.owner ph ≡ removed)
      there (inl e) = inl (next-IsPublished m l s nx (subst (λ a. Follows m a nx) (sym e) f.0))
      there (inr r) = inr r
  dequeue-Good (DequeueMove.help_win h) f = advances s h f.0 tt
  dequeue-Good (DequeueMove.help_lose h) f = reads s tt refl
  dequeue-Good DequeueMove.read (y, past, inl p) = reads s (y, past, inl (p, refl)) refl
  dequeue-Good DequeueMove.read (y, past, inr gone) = reads s (y, past, inr gone) refl
  dequeue-Good (DequeueMove.cas_win {ph} {nx} {r} h) (y, past, inl (p, v)) =
      removes ph nx r h y past v
  dequeue-Good (DequeueMove.cas_win h) (y, past, inr gone) =
      absurd (ground (arith, h, gone, s.linked_all.0))
  dequeue-Good (DequeueMove.cas_lose h) f = reads s tt refl
