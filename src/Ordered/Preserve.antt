-- ===== src/Ordered/Preserve.antt =====
-- Each step of any thread keeps the invariant, and does to the set what its event says.
use amino.Prelude.{
  ℕ, Bool, ◌≡◌, ◌≢◌, inl, inr, refl, sym, subst, List, [], ◌∷◌, arith, update, ℕ_discrete, contains,
}
use amino.Ordered.Memory.{
  Memory, recycled, Event, Pc, Goal, inserting, removing, searching, cleaning, found_event,
  missing_event,
}
use amino.Ordered.Moves.{FindMove, AddMove, RemoveMove, Move, finding, adding, taking}
use amino.Ordered.Recycle.{IsFine-recycle, IsSound-recycle}
use amino.Ordered.System.{System, Step, IsGuarded, pick, recycle, init, NoCall, Saw, Spec}
use amino.Ordered.Invariant.{contents, IsFine, IsSound}
use amino.Ordered.Grows.{IsFine-grows}
use amino.Ordered.Good.{Good}
use amino.Ordered.Find.{find-Good}
use amino.Ordered.Calls.{add-Good, remove-Good}

pub record Inv (es : List Event) (qs : List (List ℕ)) (m : Memory) (pc : ℕ → Pc) (l : List ℕ)
    : Type 0 where
  pub sound : IsSound m l
  pub fine : (t : ℕ) → IsFine m (λ j d found. Saw j d found es (contents m l ∷ qs)) t (pc t)

-- The set of this moment counts for a call under way.
Saw-now :
    (t d : ℕ) (found : Bool) (es : List Event) (q : List ℕ) (qs : List (List ℕ))
    → contains d q ≡ found
    → Saw t d found es (q ∷ qs)
Saw-now t d found [] q qs h = h
Saw-now t d found (e ∷ es) q qs h = inl h

Move-Good :
    (es : List Event) (qs : List (List ℕ)) {m m' : Memory} {p p' : Pc} {e : Event} (t : ℕ)
    (l : List ℕ)
    → IsSound m l
    → Move t m p e m' p'
    → IsFine m (λ j d found. Saw j d found es (contents m l ∷ qs)) t p
    → Good (λ j d found. Saw j d found es (contents m l ∷ qs)) m m' t p' l e
Move-Good es qs {m} t l s (finding mv) f =
    find-Good (λ j d found. Saw j d found es (contents m l ∷ qs)) t l s
      (λ d b h. Saw-now t d b es (contents m l) qs h) mv f
Move-Good es qs {m} t l s (adding mv) f =
    add-Good (λ j d found. Saw j d found es (contents m l ∷ qs)) t l s mv f
Move-Good es qs {m} t l s (taking mv) f =
    remove-Good (λ j d found. Saw j d found es (contents m l ∷ qs)) t l s mv f

found-NoCall : (t j : ℕ) (g : Goal) → NoCall j (found_event t g)
found-NoCall t j (inserting d node) = tt
found-NoCall t j (removing d) = tt
found-NoCall t j (searching d) = tt
found-NoCall t j (cleaning d) = tt

missing-NoCall : (t j : ℕ) (g : Goal) → NoCall j (missing_event t g)
missing-NoCall t j (inserting d node) = tt
missing-NoCall t j (removing d) = tt
missing-NoCall t j (searching d) = tt
missing-NoCall t j (cleaning d) = tt

-- An event of one thread is no call of another.
Find-NoCall :
    {m m' : Memory} {p p' : Pc} {e : Event} (t j : ℕ) → FindMove t m p e m' p' → NoCall j e
Find-NoCall t j FindMove.load = tt
Find-NoCall t j (FindMove.head_same h) = tt
Find-NoCall t j (FindMove.head_changed h) = tt
Find-NoCall t j (FindMove.load_next h) = tt
Find-NoCall t j (FindMove.next_same h k) = tt
Find-NoCall t j (FindMove.next_changed h) = tt
Find-NoCall t j (FindMove.prev_changed h) = tt
Find-NoCall t j (FindMove.passes h k lt) = tt
Find-NoCall t j (FindMove.dead h k) = tt
Find-NoCall t j (FindMove.unlink_win h) = tt
Find-NoCall t j (FindMove.unlink_lose h) = tt
Find-NoCall t j (FindMove.at_end {g} z) = missing-NoCall t j g
Find-NoCall t j (FindMove.finds {g} h k e) = found-NoCall t j g
Find-NoCall t j (FindMove.beyond {g} h k lt) = missing-NoCall t j g

NoCall-other :
    (t j : ℕ) {m m' : Memory} {p p' : Pc} {e : Event} → j ≢ t → Move t m p e m' p' → NoCall j e
NoCall-other t j ne (finding mv) = Find-NoCall t j mv
NoCall-other t j ne (adding (AddMove.alloc d node nz fr)) = λ y. ne (sym y)
NoCall-other t j ne (adding AddMove.store) = tt
NoCall-other t j ne (adding (AddMove.cas_win h)) = tt
NoCall-other t j ne (adding (AddMove.cas_lose h)) = tt
NoCall-other t j ne (taking (RemoveMove.call d)) = λ y. ne (sym y)
NoCall-other t j ne (taking (RemoveMove.call_search d)) = λ y. ne (sym y)
NoCall-other t j ne (taking (RemoveMove.mark_win h)) = tt
NoCall-other t j ne (taking (RemoveMove.mark_lose h)) = tt
NoCall-other t j ne (taking (RemoveMove.cut_win h)) = tt
NoCall-other t j ne (taking (RemoveMove.cut_lose h)) = tt

Good-Inv :
    {es : List Event} {qs : List (List ℕ)} {m m' : Memory} {pc : ℕ → Pc} {l : List ℕ} {p' : Pc}
    {e : Event} (t : ℕ)
    → Inv es qs m pc l
    → ((j : ℕ) → j ≢ t → NoCall j e)
    → (g : Good (λ j d found. Saw j d found es (contents m l ∷ qs)) m m' t p' l e)
    → Inv (e ∷ es) (contents m l ∷ qs) m' (update pc t p') g.after
Good-Inv {es} {qs} {m} {m'} {pc} {l} {p'} {e} t inv quiet g = record {
  sound = g.sound;
  fine = fine;
}
  where
    saw' : ℕ → ℕ → Bool → Type 0
    saw' = λ j d found. Saw j d found (e ∷ es) (contents m' g.after ∷ contents m l ∷ qs)

    fine : (j : ℕ) → IsFine m' saw' j (update pc t p' j)
    fine j = elim (ℕ_discrete t j) [
      | yes y ↦
          subst (λ i. IsFine m' saw' i (update pc t p' i)) y
            (subst (λ q. IsFine m' saw' t q) (ground arith)
              (g.own saw' (λ d b h. inl h) (λ nc d b w. inr (nc, w))))
      | no ne ↦
          subst (λ q. IsFine m' saw' j q) (ground (arith, ne))
            (IsFine-grows g.grows (λ j d found. Saw j d found es (contents m l ∷ qs)) saw' j (pc j)
              (λ y. ne (sym y)) (λ d b w. inr (quiet j (λ y. ne (sym y)), w)) (inv.fine j))
    ]

pub Step-Inv :
    {es : List Event} {qs : List (List ℕ)} {s s' : System} {e : Event} {l : List ℕ}
    → Inv es qs s.mem s.pc l
    → (st : Step s e s') → IsGuarded st
    → (l' : List ℕ) × Inv (e ∷ es) (contents s.mem l ∷ qs) s'.mem s'.pc l'
      × Spec
          (λ j d found. Saw j d found es (contents s.mem l ∷ qs))
          e
          (contents s.mem l)
          (contents s'.mem l')
Step-Inv {es = es} {qs = qs} {l = l} inv (pick t mv) u =
    let g = Move-Good es qs t l (inv.sound) mv (inv.fine t) in
    (g.after, Good-Inv t inv (λ j ne. NoCall-other t j ne mv) g, g.spec)
Step-Inv {es = es} {qs = qs} {s = s} {l = l} inv (recycle a gone) u = (
  l,
  record {
    sound = IsSound-recycle s.mem a gone l inv.sound;
    fine = λ j.
        IsFine-recycle s.mem a gone (λ j d found. Saw j d found es (contents s.mem l ∷ qs))
          (λ j d found. Saw j d found (recycled a ∷ es) (contents s.mem l ∷ contents s.mem l ∷ qs))
          j (s.pc j) (u j) (λ d b w. inr (tt, w)) (inv.fine j);
  },
  refl,
)

pub Inv-init : Inv [] [] (init.mem) (init.pc) []
Inv-init = record {
  sound = record {
    chain = refl;
    rising = tt;
    all = tt;
    live_in = λ a q k. absurd (ground (arith, q));
    null = refl;
    head = refl;
    linked_in = λ a q. absurd (ground (arith, q));
  };
  fine = λ t. tt;
}
