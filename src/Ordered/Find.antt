-- ===== src/Ordered/Find.antt =====
-- include/amino/ordered_list.h, `find`: each of its steps is good.
use amino.Prelude.{
  ℕ, Bool, true, false, ◌≡◌, ◌⊎◌, inl, inr, refl, ◌∙◌, subst, List, arith, contains,
}
use amino.Ordered.Memory.{
  unlinked, Memory, Goal, inserting, removing, searching, cleaning, key_of, Event, silent, Pc, loop,
  on_found, found_event, on_missing, missing_event,
}
use amino.Ordered.Moves.{FindMove}
use amino.Ordered.System.{NoCall, Spec}
use amino.Ordered.Live.{present}
use amino.Ordered.Invariant.{
  contents, IsPublished, Old, IsPrev, IsBeyond, IsFineGoal, IsFine, IsSound,
}
use amino.Ordered.Good.{Good, read_next, pointed_linked, Grows-refl, absent_between, head_old}
use amino.Ordered.Cut.{cuts, Goal-cut, IsPrev-cut, Old-cut}

-- A step that only reads.
pub reads :
    {saw : ℕ → ℕ → Bool → Type 0} {m : Memory} {t : ℕ} {l : List ℕ} {p' : Pc} {e : Event}
    → IsSound m l
    → Spec saw e (contents m l) (contents m l)
    → ((saw' : ℕ → ℕ → Bool → Type 0)
        → ((d : ℕ) (b : Bool) → contains d (contents m l) ≡ b → saw' t d b)
        → (NoCall t e → (d : ℕ) (b : Bool) → saw t d b → saw' t d b)
        → IsFine m saw' t p')
    → Good saw m m t p' l e
reads {m = m} {t = t} {l = l} s sp own = record {
  grows = Grows-refl m t;
  after = l;
  sound = s;
  spec = sp;
  own = own;
}

-- A step after which the thread knows nothing of the set.
pub moves_on :
    {saw : ℕ → ℕ → Bool → Type 0} {m : Memory} {t : ℕ} {l : List ℕ} {p' : Pc}
    → IsSound m l
    → ((saw' : ℕ → ℕ → Bool → Type 0) → IsFine m saw' t p')
    → Good saw m m t p' l silent
moves_on s f = reads s refl (λ saw' now later. f saw')

module _ (saw : ℕ → ℕ → Bool → Type 0) {m : Memory} (t : ℕ) (l : List ℕ) (s : IsSound m l) where
  -- The key is not there, and the thread saw that.
  missing :
      (g : Goal) (prev cur : ℕ)
      → IsFineGoal m t g
      → IsPrev m (key_of g) prev
      → IsBeyond m (key_of g) cur
      → saw t (key_of g) false
      → Good saw m m t (on_missing g prev cur) l (missing_event t g)
  missing (inserting d node) prev cur f p b w = reads s refl (λ saw' now later. (f, p, b))
  missing (removing d) prev cur f p b w = reads s (refl, w) (λ saw' now later. tt)
  missing (searching d) prev cur f p b w = reads s (refl, w) (λ saw' now later. tt)
  missing (cleaning d) prev cur f p b w = reads s refl (λ saw' now later. tt)

  found :
      (g : Goal) (prev cur nx : ℕ)
      → IsPrev m (key_of g) prev
      → IsPublished m cur
      → m.key cur ≡ key_of g
      → saw t (key_of g) true
      → Good saw m m t (on_found g prev cur nx) l (found_event t g)
  found (inserting d node) prev cur nx p c k w = reads s (refl, w) (λ saw' now later. tt)
  found (removing d) prev cur nx p c k w = reads s refl (λ saw' now later. (p, c, k))
  found (searching d) prev cur nx p c k w = reads s (refl, w) (λ saw' now later. tt)
  found (cleaning d) prev cur nx p c k w = reads s refl (λ saw' now later. tt)

  -- The cell `cur` was read twice, so what it said was true at the second time.
  rereads :
      (g : Goal) (prev cur nx : ℕ) (mk : Bool)
      → IsFine m saw t (Pc.reread g prev cur nx mk)
      → m.next cur ≡ nx
      → m.marked cur ≡ mk
      → Good saw m m t (Pc.recheck g prev cur nx mk) l silent
  rereads g prev cur nx mk (f, p, c, d) h k = reads s refl (λ saw' now later. (
    f,
    p,
    c,
    subst (λ z. Old m z ⊎ (m.owner cur ≡ unlinked)) h (read_next s cur c),
    d,
    (λ z y. now (key_of g) true (
        subst (λ q. contains q (contents m l) ≡ true) y
          (present m.marked m.key cur l (s.live_in cur c (k ∙ z)) (k ∙ z)))),
    λ z n y.
        now (key_of g) false
          (absent_between s (key_of g) cur 0 (inr (c, y)) (k ∙ z) (h ∙ n) (inl refl)),
  ))

  pub find-Good :
      ((d : ℕ) (b : Bool) → contains d (contents m l) ≡ b → saw t d b)
      → {p p' : Pc} {e : Event} {m' : Memory} → FindMove t m p e m' p'
      → IsFine m saw t p
      → Good saw m m' t p' l e
  find-Good now FindMove.load f = moves_on s (λ saw'. f)
  find-Good now (FindMove.head_same {g} {cur} h) f = reads s refl (λ saw' now' later. (
    f,
    inl refl,
    subst (λ z. Old m z) h.0 (head_old m l s),
    λ z.
        now' (key_of g) false (absent_between s (key_of g) 0 0 (inl refl) h.1 (h.0 ∙ z) (inl refl)),
  ))
  find-Good now (FindMove.head_changed h) f = moves_on s (λ saw'. f)
  find-Good now (FindMove.at_end {g} {prev} {cur} z) (f, p, o, w) =
      missing g prev cur f p (inl z) (w z)
  find-Good now (FindMove.load_next {g} {prev} {cur} nz) (f, p, inl z, w) = absurd (nz z)
  find-Good now (FindMove.load_next {g} {prev} {cur} nz) (f, p, inr c, w) =
      moves_on s (λ saw'. (f, p, c, λ k. (k, refl)))
  find-Good now (FindMove.next_same {g} {prev} {cur} {next} {cmark} h k) f =
      rereads g prev cur next cmark f h k
  find-Good now (FindMove.next_changed h) f = moves_on s (λ saw'. f.0)
  find-Good now (FindMove.prev_changed h) f = moves_on s (λ saw'. f.0)
  find-Good now (FindMove.passes {g} {prev} {cur} h k lt) (f, p, c, inr r, d, i, u) =
      absurd (ground (arith, r, pointed_linked s (key_of g) prev cur p h c))
  find-Good now (FindMove.passes {g} h k lt) (f, p, c, inl o, d, i, u) =
      reads s refl
        (λ saw' now' later. (f, inr (c, lt), o, λ z. later tt (key_of g) false (u k z lt)))
  find-Good now (FindMove.finds {g} {prev} {cur} {next} h k e) (f, p, c, o, d, i, u) =
      found g prev cur next p c e (i k e)
  find-Good now (FindMove.beyond {g} {prev} {cur} h k gt) (f, p, c, o, d, i, u) =
      missing g prev cur f p (inr (c, gt))
        (now (key_of g) false (absent_between s (key_of g) prev cur p h.1 h.0 (inr gt)))
  find-Good now (FindMove.dead h k) (f, p, c, o, d, i, u) = moves_on s (λ saw'. (f, p, c, d k))
  find-Good now (FindMove.unlink_win {g} {prev} {cur} {next} h) (f, p, c, x) =
      cuts s (key_of g) prev cur next p h c x saw t (loop g prev next) (λ l' s' saw' now'. (
        Goal-cut s (key_of g) prev cur next p h c x t g f,
        IsPrev-cut s (key_of g) prev cur next p h c x,
        Old-cut s (key_of g) prev cur next p h c x,
        λ z. now' (key_of g) false (
            absent_between s' (key_of g) prev 0 (IsPrev-cut s (key_of g) prev cur next p h c x) h.1
              (ground (arith, z)) (inl refl)),
      ))
  find-Good now (FindMove.unlink_lose h) f = moves_on s (λ saw'. f.0)
