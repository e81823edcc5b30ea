-- ===== src/Deque/Push.antt =====
-- include/amino/deque.h, `pushRight` and `pushLeft`: each of their steps is good.
use amino.Prelude.{
  ℕ, ◌≡◌, ◌≢◌, ◌⊎◌, inl, inr, refl, sym, ◌∙◌, ap, subst, List, [], ◌∷◌, arith, All, NotIn, update,
  map-update,
}
use amino.Blocking.{End, left, right, Event, silent, added}
use amino.Blocking.Order.{Spec, skip}
use amino.Deque.Memory.{
  opp, side_of, stable, pushing, Anchor, end_of, anchor_of, fresh, pushed, Memory, link, set_link,
  Pc, idle, push_cas, stab_left, done,
}
use amino.Deque.Moves.{PushMove}
use amino.Deque.Shape.{IsPushed, Shape}
use amino.Deque.Ends.{publish}
use amino.Deque.Invariant.{view, contents, Old, Snap, IsNew, IsFine, IsSound}
use amino.Deque.Good.{Good, reads, link_cong, IsSound-hidden, Grows-hidden}
use amino.Deque.Turn.{Shape-view, one_of, end-IsPushed, behind}
use amino.Deque.Publish.{first_node, next_node}

pub second :
    {m : Memory} {l : List ℕ}
    → IsSound m l
    → (e : End) (a : Anchor) → m.anchor ≡ a
    → Snap m e a
    → IsPushed m (link (opp e) m (end_of e a))
second {m} {l} s e a h sn =
    let (x, p, k, v, en, ln, hx, hp) = behind m e l s (ap (λ z. z.status) h ∙ sn.0) in
    subst (λ z. IsPushed m z) (sym (ap (link (opp e) m) (sym (ap (end_of e) h) ∙ en) ∙ ln)) hp

module _ {m : Memory} (t : ℕ) (l : List ℕ) (s : IsSound m l) where
  unseen :
      (node : ℕ)
      → ((n : ℕ) → m.owner node ≢ pushed n)
      → (v : List ℕ) → All (IsPushed m) v
      → NotIn node v
  unseen node out [] a = tt
  unseen node out (b ∷ v) a = ((λ e. out a.0.1 (ap (m.owner) e ∙ a.0.2)), unseen node out v a.1)

  pub Snap-pushing : (e : End) → m.anchor.status ≡ pushing e → Snap m e m.anchor
  Snap-pushing e h =
      let (x, p, k, v, en, ln, hx, hp) = behind m e l s h in
      (h, subst (λ z. IsPushed m z) (sym en) hx)

  zero_links :
      (node : ℕ) (e : End) → side_of e (update m.to_left node 0) (update m.to_right node 0) node ≡ 0
  zero_links node left = ground arith
  zero_links node right = ground arith

  pub link-store :
      (e i : End) (node x a : ℕ) → node ≢ a → link i (set_link e node x m) a ≡ link i m a
  link-store left left node x a ne = ground (arith, ne)
  link-store left right node x a ne = refl
  link-store right left node x a ne = refl
  link-store right right node x a ne = ground (arith, ne)

  links_new :
      (e i : End) (node x : ℕ)
      → (link i (set_link e node x m) node ≡ x)
        ⊎ (link i (set_link e node x m) node ≡ link i m node)
  links_new left left node x = inl (ground arith)
  links_new left right node x = inr refl
  links_new right left node x = inr refl
  links_new right right node x = inl (ground arith)

  pub stored : (e : End) (node x : ℕ) → link e (set_link e node x m) node ≡ x
  stored left node x = ground arith
  stored right node x = ground arith

  -- A link of the new node is written.
  stores :
      (i : End) (d node x : ℕ) (p' : Pc)
      → IsNew m t d node
      → IsPushed m x
      → (IsNew (set_link i node x m) t d node → IsFine (set_link i node x m) l t p')
      → Good m (set_link i node x m) t p' l silent
  stores i d node x p' new px own = record {
    after = l;
    grows =
        Grows-hidden m t l m.value m'.to_left m'.to_right m.owner (λ a n o. o) (λ a n o. o)
          (λ a p. refl) (λ a p. link-store i left node x a (apart_new a p))
          (λ a p. link-store i right node x a (apart_new a p)) s
          (λ j a ne o. (o, refl, λ e. link-store i e node x a (λ y. ne (theirs j a o y))))
          (second s);
    own = own (new.0, new.1, new.2, λ e. written e (links_new i e node x));
    sound =
        IsSound-hidden m t l m.value m'.to_left m'.to_right m.owner (λ a n o. o) (λ a n o. o)
          (λ a p. refl) (λ a p. link-store i left node x a (apart_new a p))
          (λ a p. link-store i right node x a (apart_new a p)) s;
    spec = skip;
  }
    where
      m' : Memory
      m' = set_link i node x m

      apart_new : (a : ℕ) → IsPushed m a → node ≢ a
      apart_new a p y = ground (arith, p.2, new.0, y)

      theirs : (j a : ℕ) → m.owner a ≡ fresh j → node ≡ a → j ≡ t
      theirs j a o y = ground (arith, o, new.0, y)

      written :
          (e : End)
          → (link e m' node ≡ x) ⊎ (link e m' node ≡ link e m node)
          → Old m' (link e m' node)
      written e (inl y) = subst (λ z. Old m' z) (sym y) (inr px)
      written e (inr y) = subst (λ z. Old m' z) (sym y) (new.3 e)

  pub push-Good :
      {p p' : Pc} {e : Event} {m' : Memory}
      → PushMove t m p e m' p'
      → IsFine m l t p
      → Good m m' t p' l e
  push-Good (PushMove.alloc e d node nz fr) f = record {
    after = l;
    grows =
        Grows-hidden m t l (update m.value node d) (update m.to_left node 0)
          (update m.to_right node 0) (update m.owner node (fresh t)) owners owners' values lefts
          rights s
          (λ j a ne o. (
            ground (arith, o, fr),
            ground (arith, o, fr),
            link_cong m
                (record m {
                  value = update m.value node d;
                  to_left = update m.to_left node 0;
                  to_right = update m.to_right node 0;
                  owner = update m.owner node (fresh t);
                })
                a (ground (arith, o, fr)) (ground (arith, o, fr)),
          ))
          (second s);
    own = (ground arith, nz, ground arith, λ i. inl (zero_links node i));
    sound =
        IsSound-hidden m t l (update m.value node d) (update m.to_left node 0)
          (update m.to_right node 0) (update m.owner node (fresh t)) owners owners' values lefts
          rights s;
    spec =
        subst (λ z. Spec silent (contents m l) z)
          (sym (
            map-update m.value node d l (unseen node (λ n o. ground (arith, o, fr)) l s.shape.all)))
          skip;
  }
    where
      owners : (a n : ℕ) → m.owner a ≡ pushed n → update m.owner node (fresh t) a ≡ pushed n
      owners a n o = ground (arith, o, fr)

      owners' : (a n : ℕ) → update m.owner node (fresh t) a ≡ pushed n → m.owner a ≡ pushed n
      owners' a n o = ground (arith, o, fr)

      values : (a : ℕ) → IsPushed m a → update m.value node d a ≡ m.value a
      values a p = ground (arith, p.2, fr)

      lefts : (a : ℕ) → IsPushed m a → update m.to_left node 0 a ≡ m.to_left a
      lefts a p = ground (arith, p.2, fr)

      rights : (a : ℕ) → IsPushed m a → update m.to_right node 0 a ≡ m.to_right a
      rights a p = ground (arith, p.2, fr)
  push-Good (PushMove.load_empty h) f = reads s (f, h) skip
  push-Good (PushMove.load_stable {e} h st) f = reads s (f, st, end-IsPushed m e l s h) skip
  push-Good (PushMove.load_unstable i h st) f = reads s (f, Snap-pushing i st) skip
  push-Good (PushMove.first_win {e} {d} {node} {old} h) f =
      subst (λ o. Good m (publish node (anchor_of e node node stable) m) t idle l (added e d)) h
        (first_node t l s e d node (ap (end_of e) h ∙ f.1) f.0)
  push-Good (PushMove.first_lose h) f = reads s f.0 skip
  push-Good (PushMove.store_link {e} {d} {node} {old}) (new, st, p) =
      stores (opp e) d node (end_of e old) (push_cas e d node old) new p
        (λ new'. (new', st, p, stored (opp e) node (end_of e old)))
  push-Good (PushMove.cas_win {e} {d} {node} {old} h) (new, st, p, to) =
      let sh = Shape-view m e l s.shape in
      let (b, k, at) = one_of m e (view e l) sh (λ z. p.0 (ap (end_of e) (sym h) ∙ z)) in
      subst
        (λ o.
          Good m (publish node (anchor_of e node (end_of (opp e) o) (pushing e)) m) t
            (stab_left e (anchor_of e node (end_of (opp e) o) (pushing e)) done) l (added e d))
        h
        (next_node t l s e d node b k (ap (λ z. z.status) h ∙ st) at new
          (to ∙ ap (end_of e) (sym h) ∙ (subst (λ v. Shape m e v) at sh).near.starts))
  push-Good (PushMove.cas_lose h) f = reads s f.0 skip
