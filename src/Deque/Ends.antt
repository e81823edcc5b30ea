-- ===== src/Deque/Ends.antt =====
-- What the writes at an end make of the list of nodes.
use amino.Prelude.{
  ℕ, ◌+◌, ◌≡◌, ◌≢◌, refl, sym, ◌∙◌, subst, List, [], ◌∷◌, ◌++◌, arith, All, NotIn, update,
}
use amino.Blocking.{End}
use amino.Deque.Memory.{
  opp, Status, stable, pushing, Anchor, end_of, anchor_of, fresh, pushed, Memory, link, set_link,
}
use amino.Deque.Views.{rev, Toward, Loose}
use amino.Deque.Lists.{Toward-snoc, Toward-unsnoc, Toward-update, Toward-Loose, first-append}
use amino.Deque.Shape.{
  IsPushed, Shape, end_of-anchor_of, end_of-opp, link-set_link, link-opp-set_link, pushing_ne,
  stable_ne,
}

-- The node `node` is published with the anchor `a`.
abbrev pub publish : ℕ → Anchor → Memory → Memory
publish node a m = record m {
  anchor = a;
  owner = update m.owner node (pushed m.pushes);
  pushes = m.pushes + 1;
}

pub Shape-first :
    (m : Memory) (e : End) (node : ℕ)
    → node ≢ 0
    → Shape (publish node (anchor_of e node node stable) m) e (node ∷ [])
Shape-first m e node nz = record {
  near = record { starts = end_of-anchor_of e node node stable; loose = tt; firm = λ h. tt };
  far = record { starts = end_of-opp e node node stable; loose = tt; firm = λ h. tt };
  nodup = (tt, tt);
  all = ((nz, m.pushes, ground arith), tt);
}

module _ (m : Memory) (e : End) where
  pub Shape-push :
      (t node h : ℕ) (k : List ℕ)
      → Shape m e (h ∷ k)
      → m.anchor.status ≡ stable
      → node ≢ 0
      → m.owner node ≡ fresh t
      → link (opp e) m node ≡ h
      → Shape
          (publish node (anchor_of e node (end_of (opp e) m.anchor) (pushing e)) m)
          e
          (node ∷ h ∷ k)
  Shape-push t node h k s st nz o to = record {
    near = record {
      starts = end_of-anchor_of e node (end_of (opp e) m.anchor) (pushing e);
      loose = s.near.firm (λ z. stable_ne e (sym st ∙ z));
      firm = λ z. absurd (z refl);
    };
    far = record {
      starts =
          end_of-opp e node (end_of (opp e) m.anchor) (pushing e)
          ∙ s.far.starts
          ∙ sym (first-append h node (rev k));
      loose = Toward-Loose (link (opp e) m) ((rev k ++ h ∷ []) ++ node ∷ []) there;
      firm = λ z. there;
    };
    nodup = (out (h ∷ k) s.all, s.nodup);
    all = ((nz, m.pushes, ground arith), kept (h ∷ k) s.all);
  }
    where
      there : Toward (link (opp e) m) ((rev k ++ h ∷ []) ++ node ∷ [])
      there =
          Toward-snoc (link (opp e) m) h node (rev k)
            (s.far.firm (λ z. stable_ne (opp e) (sym st ∙ z))) to

      out : (l : List ℕ) → All (IsPushed m) l → NotIn node l
      out [] a = tt
      out (b ∷ l) a = ((λ z. ground (arith, a.0.2, o, z)), out l a.1)

      kept :
          (l : List ℕ)
          → All (IsPushed m) l
          → All
              (IsPushed (publish node (anchor_of e node (end_of (opp e) m.anchor) (pushing e)) m))
              l
      kept [] a = tt
      kept (b ∷ l) a = ((a.0.0, a.0.1, ground (arith, a.0.2, o)), kept l a.1)

  pub Shape-pop :
      (h p : ℕ) (k : List ℕ)
      → Shape m e (h ∷ p ∷ k)
      → m.anchor.status ≡ stable
      → Shape (record m { anchor = anchor_of e p (end_of (opp e) m.anchor) stable }) e (p ∷ k)
        × (link (opp e) m h ≡ p)
  Shape-pop h p k s st = (
    record {
      near = record {
        starts = end_of-anchor_of e p (end_of (opp e) m.anchor) stable;
        loose = Toward-Loose (link e m) (p ∷ k) (s.near.loose);
        firm = λ z. s.near.loose;
      };
      far = record {
        starts =
            end_of-opp e p (end_of (opp e) m.anchor) stable
            ∙ s.far.starts
            ∙ first-append p h (rev k);
        loose = Toward-Loose (link (opp e) m) (rev k ++ p ∷ []) there.0;
        firm = λ z. there.0;
      };
      nodup = s.nodup.1;
      all = s.all.1;
    },
    there.1,
  )
    where
      there : Toward (link (opp e) m) (rev k ++ p ∷ []) × (link (opp e) m h ≡ p)
      there =
          Toward-unsnoc (link (opp e) m) p h (rev k)
            (s.far.firm (λ z. stable_ne (opp e) (sym st ∙ z)))

  pub Shape-one : (x : Status) → Shape (record m { anchor = anchor_of e 0 0 x }) e []
  Shape-one x = record {
    near = record { starts = end_of-anchor_of e 0 0 x; loose = tt; firm = λ z. tt };
    far = record { starts = end_of-opp e 0 0 x; loose = tt; firm = λ z. tt };
    nodup = tt;
    all = tt;
  }

  -- The missing link is set.
  pub Shape-fix :
      (h p : ℕ) (k : List ℕ) → Shape m e (h ∷ p ∷ k) → Shape (set_link e p h m) e (h ∷ p ∷ k)
  Shape-fix h p k s = record {
    near = record {
      starts = s.near.starts;
      loose = subst (λ f. Toward f (p ∷ k)) (sym (link-set_link e m p h)) rest;
      firm =
          λ z. subst (λ f. Toward f (h ∷ p ∷ k)) (sym (link-set_link e m p h)) (ground arith, rest);
    };
    far = record {
      starts = s.far.starts;
      loose =
          subst (λ f. Loose f (rev (h ∷ p ∷ k))) (sym (link-opp-set_link e m p h)) (s.far.loose);
      firm = λ z.
          subst (λ f. Toward f (rev (h ∷ p ∷ k))) (sym (link-opp-set_link e m p h)) (s.far.firm z);
    };
    nodup = s.nodup;
    all = s.all;
  }
    where
      beyond :
          (l : List ℕ)
          → NotIn p l
          → Toward (link e m) (p ∷ l)
          → Toward (update (link e m) p h) (p ∷ l)
      beyond [] n c = tt
      beyond (b ∷ l) n c = (ground (arith, n.0, c.0), Toward-update (link e m) p h (b ∷ l) n c.1)

      rest : Toward (update (link e m) p h) (p ∷ k)
      rest = beyond k s.nodup.1.0 s.near.loose

  -- The deque is marked as stable.
  pub Shape-stable :
      (h p : ℕ) (k : List ℕ)
      → Shape m e (h ∷ p ∷ k)
      → m.anchor.status ≡ pushing e
      → link e m p ≡ h
      → Shape (record m { anchor = record m.anchor { status = stable } }) e (h ∷ p ∷ k)
  Shape-stable h p k s st to = record {
    near = record { starts = s.near.starts; loose = s.near.loose; firm = λ z. (to, s.near.loose) };
    far = record {
      starts = s.far.starts;
      loose = s.far.loose;
      firm = λ z. s.far.firm (λ y. pushing_ne e (sym st ∙ y));
    };
    nodup = s.nodup;
    all = s.all;
  }
