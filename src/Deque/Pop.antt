-- ===== src/Deque/Pop.antt =====
-- include/amino/deque.h, `popRight` and `popLeft`: each of their steps is good.
use amino.Prelude.{ℕ, ◌≡◌, ◌≢◌, ◌⊎◌, inl, inr, refl, sym, ◌∙◌, ap, subst, List, [], ◌∷◌, map}
use amino.Blocking.{End, left, right, Event, removed, found_empty}
use amino.Blocking.Order.{Spec, skip, remove_left, remove_right, miss}
use amino.Queue.Invariant.{In}
use amino.Deque.Memory.{
  opp, Status, stable, pushing, Anchor, end_of, anchor_of, Memory, link, Pc, pop_read,
}
use amino.Deque.Moves.{PopMove}
use amino.Deque.Views.{rev}
use amino.Deque.Lists.{map-snoc, last-ne}
use amino.Deque.Shape.{IsPushed, Shape, stable_ne}
use amino.Deque.Ends.{Shape-pop, Shape-one}
use amino.Deque.Invariant.{view, contents, Ahead, Watch, Behind, IsFine, IsSound}
use amino.Deque.Good.{Good, reads}
use amino.Deque.Kept.{Kept, Kept-tail, Kept-unsnoc, Kept-view}
use amino.Deque.Turn.{
  view-view, Shape-view, Shape-back, ends_agree, ends_differ, two_of, one_of, none_of, Grows-turn,
  IsSound-stable,
}
use amino.Deque.Push.{Snap-pushing}

remove-Spec :
    (e : End) (f : ℕ → ℕ) (h : ℕ) (v : List ℕ)
    → Spec (removed e (f h)) (map f (view e (h ∷ v))) (map f (view e v))
remove-Spec left f h v = remove_left
remove-Spec right f h v =
    subst (λ z. Spec (removed right (f h)) z (map f (rev v))) (sym (map-snoc f h (rev v)))
      remove_right

ends_same : (e : End) (a : Anchor) → a.at_left ≡ a.at_right → end_of e a ≡ end_of (opp e) a
ends_same left a h = h
ends_same right a h = sym h

end_nonzero : (e : End) (a : Anchor) → a.at_left ≡ a.at_right → a.at_right ≢ 0 → end_of e a ≢ 0
end_nonzero left a h nz z = nz (sym h ∙ z)
end_nonzero right a h nz z = nz z

status_cases : (a : Status) → (a ≡ stable) ⊎ ((i : End) × (a ≡ pushing i))
status_cases stable = inl refl
status_cases (pushing i) = inr (i, refl)

module _ {m : Memory} (t : ℕ) (l : List ℕ) (s : IsSound m l) where
  end_of-IsPushed :
      (e : End) → m.anchor.at_left ≢ m.anchor.at_right → IsPushed m (end_of e m.anchor)
  end_of-IsPushed e ne =
      let sh = Shape-view m e l s.shape in
      let (h, p, k, at) = two_of m e (view e l) sh ne in
      let sh' = subst (λ v. Shape m e v) at sh in
      subst (λ z. IsPushed m z) (sym (sh'.near.starts)) sh'.all.0

  -- The end of the deque stands first, seen from there.
  In-first : (e : End) → m.anchor.at_left ≢ m.anchor.at_right → In (end_of e m.anchor) (view e l)
  In-first e ne =
      let sh = Shape-view m e l s.shape in
      let (h, p, k, at) = two_of m e (view e l) sh ne in
      subst (λ v. In (end_of e m.anchor) v) (sym at)
        (inl ((subst (λ v. Shape m e v) at sh).near.starts))

  watches :
      (e : End)
      → m.anchor.at_left ≢ m.anchor.at_right
      → m.anchor.status ≡ stable
      → Watch m l e m.anchor
  watches e ne st = record {
    still = st;
    two = ends_differ e m.anchor ne;
    near = end_of-IsPushed e ne;
    far = end_of-IsPushed (opp e) ne;
    settled = λ z. absurd (stable_ne (opp e) (sym st ∙ z));
    ahead = λ i. here;
  }
    where
      here : Ahead (end_of (opp e) m.anchor) (end_of e m.anchor) (view (opp e) l)
      here =
          let sh = Shape-view m (opp e) l s.shape in
          let (h, p, k, at) = two_of m (opp e) (view (opp e) l) sh ne in
          subst (λ v. Ahead (end_of (opp e) m.anchor) (end_of e m.anchor) v) (sym at)
            (inl (sym ((subst (λ v. Shape m (opp e) v) at sh).near.starts)))

  empty_list : m.anchor.at_right ≡ 0 → l ≡ []
  empty_list z =
      sym (view-view right l)
      ∙ ap (view right) (none_of m right (view right l) (Shape-view m right l s.shape) z)

  -- The node at end `e` is taken off.
  takes :
      (e : End) (h : ℕ) (v : List ℕ) (a' : Anchor)
      → view e l ≡ h ∷ v
      → m.anchor.status ≡ stable
      → a'.status ≡ stable
      → Shape (record m { anchor = a' }) e v
      → Good m
          (record m { anchor = a' })
          t
          (pop_read (end_of e m.anchor) (m.value (end_of e m.anchor)))
          l
          (removed e (m.value (end_of e m.anchor)))
  takes e h v a' at st st' shape = record {
    after = view e v;
    grows =
        Grows-turn m t l (view e v) a' m.owner m.pushes (λ i z. stable_ne i (sym st ∙ z))
          (λ a n o. o) (λ j a ne o. o) (λ i n z. absurd (stable_ne i (sym st' ∙ z)))
          (subst (λ z. (i : End) → Kept m (view i z) (view i (view e v))) back
            (Kept-view m e (h ∷ v) v (Kept-tail m h v sh.nodup.0) (Kept-unsnoc m h (rev v))));
    own = (subst (λ z. IsPushed m z) (sym (sh.near.starts)) sh.all.0, refl);
    sound =
        IsSound-stable m l (view e v) a' s st' (Shape-back (record m { anchor = a' }) e v shape);
    spec =
        subst
          (λ z.
            Spec (removed e (m.value (end_of e m.anchor))) (contents m z) (contents m (view e v)))
          back
          (subst
            (λ z.
              Spec (removed e (m.value z)) (contents m (view e (h ∷ v))) (contents m (view e v)))
            (sym (sh.near.starts)) (remove-Spec e m.value h v));
  }
    where
      sh : Shape m e (h ∷ v)
      sh = subst (λ z. Shape m e z) at (Shape-view m e l s.shape)

      back : view e (h ∷ v) ≡ l
      back = ap (view e) (sym at) ∙ view-view e l

  takes_last :
      (e : End)
      → m.anchor.status ≡ stable
      → m.anchor.at_left ≡ m.anchor.at_right
      → m.anchor.at_right ≢ 0
      → Good m
          (record m { anchor = anchor_of e 0 0 m.anchor.status })
          t
          (pop_read (end_of e m.anchor) (m.value (end_of e m.anchor)))
          l
          (removed e (m.value (end_of e m.anchor)))
  takes_last e st eq nz =
      let (h, k, at) =
        one_of m e (view e l) (Shape-view m e l s.shape) (end_nonzero e m.anchor eq nz) in
      takes e h [] (anchor_of e 0 0 m.anchor.status) (at ∙ ap (λ z. h ∷ z) (alone h k at)) st st
        (Shape-one m e m.anchor.status)
    where
      alone : (h : ℕ) (k : List ℕ) → view e l ≡ h ∷ k → k ≡ []
      alone h [] at = refl
      alone h (b ∷ k) at = absurd (
          let sh = subst (λ v. Shape m e v) at (Shape-view m e l s.shape) in
          last-ne h b k (sh.nodup)
            (sym (sh.far.starts) ∙ sym (ends_same e m.anchor eq) ∙ sh.near.starts))

  takes_next :
      (e : End) (prev : ℕ)
      → Watch m l e m.anchor
      → Behind m l e m.anchor prev
      → Good m
          (record m { anchor = anchor_of e prev (end_of (opp e) m.anchor) m.anchor.status })
          t
          (pop_read (end_of e m.anchor) (m.value (end_of e m.anchor)))
          l
          (removed e (m.value (end_of e m.anchor)))
  takes_next e prev w b =
      let ne = ends_agree e m.anchor w.two in
      let sh = Shape-view m e l s.shape in
      let (h, p, k, at) = two_of m e (view e l) sh ne in
      let sh' = subst (λ v. Shape m e v) at sh in
      let (shape, ln) = Shape-pop m e h p k sh' w.still in
      let same : p ≡ prev =
        sym ln ∙ ap (link (opp e) m) (sym (sh'.near.starts)) ∙ b (In-first (opp e) ne) in
      takes e h (p ∷ k) (anchor_of e prev (end_of (opp e) m.anchor) m.anchor.status) at w.still
        w.still
        (subst
          (λ z.
            Shape (record m { anchor = anchor_of e z (end_of (opp e) m.anchor) m.anchor.status }) e
              (p ∷ k))
          same
          (subst
            (λ z. Shape (record m { anchor = anchor_of e p (end_of (opp e) m.anchor) z }) e (p ∷ k))
            (sym w.still) shape))

  pub pop-Good :
      {p p' : Pc} {e : Event} {m' : Memory}
      → PopMove t m p e m' p'
      → IsFine m l t p
      → Good m m' t p' l e
  pop-Good (PopMove.call e) f = reads s tt skip
  pop-Good (PopMove.load_empty {e} h) f =
      reads s tt
        (subst (λ z. Spec (found_empty e) (contents m z) (contents m z)) (sym (empty_list h)) miss)
  pop-Good (PopMove.load_one nz eq) f = reads s (single (status_cases m.anchor.status), eq, nz) skip
    where
      single :
          (m.anchor.status ≡ stable) ⊎ ((i : End) × (m.anchor.status ≡ pushing i))
          → m.anchor.status ≡ stable
      single (inl h) = h
      single (inr (i, h)) = absurd (s.two i h eq)
  pop-Good (PopMove.load_stable {e} nz ne st) f = reads s (watches e ne st) skip
  pop-Good (PopMove.load_unstable i nz ne st) f = reads s (tt, Snap-pushing t l s i st) skip
  pop-Good (PopMove.one_stays h) f = reads s f skip
  pop-Good (PopMove.one_moved h) f = reads s tt skip
  pop-Good (PopMove.one_win {e} {old} h) f =
      subst
        (λ o.
          Good m (record m { anchor = anchor_of e 0 0 o.status }) t
            (pop_read (end_of e o) (m.value (end_of e o))) l (removed e (m.value (end_of e o))))
        h
        (takes_last e (ap (λ z. z.status) h ∙ f.0)
          (ap (λ z. z.at_left) h ∙ f.1 ∙ ap (λ z. z.at_right) (sym h))
          (λ z. f.2 (ap (λ y. y.at_right) (sym h) ∙ z)))
  pop-Good (PopMove.one_lose h) f = reads s tt skip
  pop-Good (PopMove.left_stays h) f = reads s f skip
  pop-Good (PopMove.left_moved h) f = reads s tt skip
  pop-Good (PopMove.right_stays h) f = reads s f skip
  pop-Good (PopMove.right_moved h) f = reads s tt skip
  pop-Good (PopMove.check_same h) f = reads s f skip
  pop-Good (PopMove.check_changed h) f = reads s tt skip
  pop-Good PopMove.load_prev f = reads s (f, λ i. refl) skip
  pop-Good (PopMove.prev_stays h) f = reads s f skip
  pop-Good (PopMove.prev_moved h) f = reads s tt skip
  pop-Good (PopMove.cas_win {e} {old} {prev} h) f =
      subst
        (λ o.
          Good m (record m { anchor = anchor_of e prev (end_of (opp e) o) o.status }) t
            (pop_read (end_of e o) (m.value (end_of e o))) l (removed e (m.value (end_of e o))))
        h
        (takes_next e prev (subst (λ o. Watch m l e o) (sym h) f.0)
          (subst (λ o. Behind m l e o prev) (sym h) f.1))
  pop-Good (PopMove.cas_lose h) f = reads s tt skip
  pop-Good PopMove.read f = reads s f.1 skip
  pop-Good PopMove.answer f = reads s tt skip
