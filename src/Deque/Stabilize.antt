-- ===== src/Deque/Stabilize.antt =====
-- include/amino/deque.h, `stabilizeRight` and `stabilizeLeft`: each of their steps is good.
use amino.Prelude.{ℕ, ◌≡◌, inl, inr, refl, sym, ◌∙◌, ap, subst, List, ◌∷◌, arith}
use amino.Blocking.{End, left, Event, silent}
use amino.Blocking.Order.{skip}
use amino.Deque.Memory.{
  opp, stable, Anchor, end_of, Memory, link, set_link, After, done, push, pop, Pc, resume, stab_cas,
}
use amino.Deque.Moves.{StabilizeMove}
use amino.Deque.Shape.{Shape, stable_ne}
use amino.Deque.Ends.{Shape-stable}
use amino.Deque.Invariant.{view, born, Snap, Fixed, IsFineAfter, IsFine, IsSound}
use amino.Deque.Good.{Good, reads}
use amino.Deque.Turn.{view-view, Shape-view, Shape-back, behind, IsSound-stable}
use amino.Deque.Newest.{prev-IsPushed, older, same_end}
use amino.Deque.Fix.{fixes}

resume-IsFine :
    (m : Memory) (l : List ℕ) (t : ℕ) (k : After) → IsFineAfter m t k → IsFine m l t (resume k)
resume-IsFine m l t done f = tt
resume-IsFine m l t (push e d node) f = f
resume-IsFine m l t (pop e) f = tt

module _ {m : Memory} (t : ℕ) (l : List ℕ) (s : IsSound m l) where
  goes_on : (k : After) → IsFineAfter m t k → Good m m t (resume k) l silent
  goes_on k f = reads s (resume-IsFine m l t k f) skip

  After-anchor :
      (k : After) (x : Anchor) → IsFineAfter m t k → IsFineAfter (record m { anchor = x }) t k
  After-anchor done x f = tt
  After-anchor (push e d node) x f = f
  After-anchor (pop e) x f = tt

  -- The status becomes stable.
  settles :
      (e : End) (k : After)
      → IsFineAfter m t k
      → Snap m e m.anchor
      → Fixed m e m.anchor
      → Good m (record m { anchor = record m.anchor { status = stable } }) t (resume k) l silent
  settles e k f sn x = record {
    after = l;
    grows = record {
      mine = λ j a ne o. (o, refl, λ i. refl);
      published = λ a n o. o;
      value = λ a p. refl;
      returns = λ i a sn' h. absurd (stable_ne i (ap (λ b. b.status) h ∙ sn'.0));
      inner = λ i a sn' h. refl;
      fixed = λ i a sn' h y. y h;
      leaves = λ i a sn' h. inr (left_fixed i a sn' h);
      climbs = λ i p q. omega arith;
      settled = λ i y p d h. absurd (stable_ne i h);
      kept = λ i x y p q n. (n, λ h. h);
      steady = λ i x y p ne d n h. refl;
    };
    own =
        resume-IsFine (record m { anchor = record m.anchor { status = stable } }) l t k
          (After-anchor k (record m.anchor { status = stable }) f);
    sound = IsSound-stable m l l (record m.anchor { status = stable }) s refl shape;
    spec = skip;
  }
    where
      left_fixed :
          (i : End) (a : Anchor)
          → Snap m i a
          → m.anchor ≡ a
          → link i m (link (opp i) m (end_of i a)) ≡ end_of i a
      left_fixed i a sn' h =
          subst (λ b. link i m (link (opp i) m (end_of i b)) ≡ end_of i b) h
            (subst (λ j. link j m (link (opp j) m (end_of j m.anchor)) ≡ end_of j m.anchor)
              (same_end t l s e i sn a sn' h) (x refl))

      shape : Shape (record m { anchor = record m.anchor { status = stable } }) left l
      shape =
          let (h, p, r, at, en, ln, hx, hp) = behind m e l s sn.0 in
          subst (λ z. Shape (record m { anchor = record m.anchor { status = stable } }) left z)
            (ap (view e) (sym at) ∙ view-view e l)
            (Shape-back (record m { anchor = record m.anchor { status = stable } }) e (h ∷ p ∷ r)
              (Shape-stable m e h p r (subst (λ z. Shape m e z) at (Shape-view m e l s.shape)) sn.0
                (ap (link e m) (sym ln)
                  ∙ ap (λ z. link e m (link (opp e) m z)) (sym en)
                  ∙ x refl
                  ∙ en)))

  pub stabilize-Good :
      {p p' : Pc} {e : Event} {m' : Memory}
      → StabilizeMove t m p e m' p'
      → IsFine m l t p
      → Good m m' t p' l e
  stabilize-Good (StabilizeMove.left_stays h) f = reads s f skip
  stabilize-Good (StabilizeMove.left_moved {k = k} h) f = goes_on k f.0
  stabilize-Good (StabilizeMove.right_stays h) f = reads s f skip
  stabilize-Good (StabilizeMove.right_moved {k = k} h) f = goes_on k f.0
  stabilize-Good (StabilizeMove.check_same h) f = reads s f skip
  stabilize-Good (StabilizeMove.check_changed {k = k} h) f = goes_on k f.0
  stabilize-Good StabilizeMove.load_prev f = reads s (f.0, f.1, λ h. refl) skip
  stabilize-Good (StabilizeMove.end_stays h) f = reads s f skip
  stabilize-Good (StabilizeMove.end_moved {k = k} h) f = goes_on k f.0
  stabilize-Good (StabilizeMove.recheck_same {e} {a} {prev} h) (f, sn, i) =
      reads s (f, sn, prev-IsPushed t l s e a prev sn h i, i) skip
  stabilize-Good (StabilizeMove.recheck_changed {k = k} h) f = goes_on k f.0
  stabilize-Good (StabilizeMove.next_right {e} {a} {prev} h) (f, sn, p, i) =
      reads s (f, sn, λ z. ap (link e m) (i z) ∙ h) skip
  stabilize-Good (StabilizeMove.next_wrong {e} {a} {prev} h) (f, sn, p, i) =
      reads s
        (
          f,
          sn,
          p,
          i,
          s.links e prev p,
          λ z. older t l s e a (link e m prev) sn z (s.links e prev p) h,
        )
        skip
  stabilize-Good (StabilizeMove.again_same {e} {a} {prev} {next} h) (f, sn, p, i, o, y) =
      reads s (f, sn, p, inl (h, i h), o, y h) skip
  stabilize-Good (StabilizeMove.again_changed {k = k} h) f = goes_on k f.0
  stabilize-Good (StabilizeMove.fix_win {e} {a} {prev} {next} {k} h) (f, sn, p, inl (z, i), o, y) =
      subst
        (λ b.
          Snap m e b
          → link (opp e) m (end_of e b) ≡ prev
          → Good m (set_link e prev (end_of e b) m) t (stab_cas e b k) l silent)
        z (fixes t l s e prev k f) sn i
  stabilize-Good (StabilizeMove.fix_win {e} {a} {prev} {next} h) (f, sn, p, inr i, o, y) =
      absurd (ground (arith, i, y, ap (λ z. born (m.owner z)) h))
  stabilize-Good (StabilizeMove.fix_lose {k = k} h) f = goes_on k f.0
  stabilize-Good (StabilizeMove.cas_win {e} {a} {k} h) (f, sn, x) =
      subst
        (λ b.
          Snap m e b
          → Fixed m e b
          → Good m (record m { anchor = record b { status = stable } }) t (resume k) l silent)
        h (settles e k f) sn x
  stabilize-Good (StabilizeMove.cas_lose {k = k} h) f = goes_on k f.0
