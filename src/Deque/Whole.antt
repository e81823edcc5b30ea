-- ===== src/Deque/Whole.antt =====
-- include/amino/deque.h: `empty`, `size`, the peeks and the destructor, on the memory of one moment.
use amino.Prelude.{
  ℕ, zero, suc, ◌+◌, ◌≡◌, ◌≢◌, ◌<◌, ◌↔◌, refl, sym, ◌∙◌, ap, subst, Bool, true, ◌&&◌, List, [], ◌∷◌,
  arith, Option, none, some, ◌==◌, if◌then◌else◌, length, map, IsNodup,
}
use amino.Blocking.{Event, End, left, right}
use amino.Blocking.Order.{Replay}
use amino.Deque.Memory.{Memory, pushing, end_of}
use amino.Deque.Views.{rev, first, Toward}
use amino.Deque.Lists.{Toward-unsnoc, first-append, last-ne, map-rev}
use amino.Deque.Shape.{Shape, Shape-flip}
use amino.Deque.System.{System, Run}
use amino.Deque.Invariant.{contents}
use amino.Deque.Safety.{Run-Inv}

pub empty : Memory → Bool
empty m = m.anchor.at_left == 0 && m.anchor.at_right == 0

-- The loop of `size`, which stops before the right end; `none` is a loop that has not ended within the fuel.
pub size_loop : ℕ → Memory → (node result : ℕ) → Option ℕ
size_loop zero m node result = none
size_loop (suc n) m node result =
    let rest = size_loop n m (m.to_right node) (result + 1) in
    if m.to_right node == m.anchor.at_right then some result else rest

pub size : ℕ → Memory → Option ℕ
unfolding size_loop
size fuel m =
    if m.anchor.at_left == 0
    then some 0
    else if m.anchor.at_left == m.anchor.at_right
    then some 1
    else size_loop fuel m m.anchor.at_left 2

-- `peekLeft` and `peekRight`.
pub peek : End → Memory → Option ℕ
peek e m = if end_of e m.anchor == 0 then none else some (m.value (end_of e m.anchor))

-- The destructor: the nodes it deletes, in order.
pub destroy_loop : ℕ → Memory → ℕ → Option (List ℕ)
destroy_loop zero m current = none
destroy_loop (suc n) m current =
    let rest = destroy_loop n m (m.to_right current) in
    if current == m.anchor.at_right
    then some (m.anchor.at_right ∷ [])
    else elim rest [ none ↦ none | some l ↦ some (current ∷ l) ]

pub destroy : ℕ → Memory → Option (List ℕ)
unfolding destroy_loop
destroy fuel m = if m.anchor.at_left == 0 then some [] else destroy_loop fuel m m.anchor.at_left

-- Each node but the last points to the one after it.
abbrev Onward : (ℕ → ℕ) → List ℕ → Type 0
Onward f [] = Unit
Onward f (a ∷ []) = Unit
Onward f (a ∷ b ∷ l) = (f a ≡ b) × Onward f (b ∷ l)

Toward-Onward : (f : ℕ → ℕ) (l : List ℕ) → Toward f (rev l) → Onward f l
Toward-Onward f [] h = tt
Toward-Onward f (a ∷ []) h = tt
Toward-Onward f (a ∷ b ∷ l) h =
    let (k, e) = Toward-unsnoc f b a (rev l) h in (e, Toward-Onward f (b ∷ l) k)

size_loop_lem :
    (n : ℕ) (m : Memory) (r a b : ℕ) (l : List ℕ)
    → Onward m.to_right (a ∷ b ∷ l)
    → IsNodup (a ∷ b ∷ l)
    → m.anchor.at_right ≡ first (rev (a ∷ b ∷ l))
    → length l < n
    → size_loop n m a r ≡ some (r + length l)
unfolding size_loop
size_loop_lem zero m r a b l c d z h = absurd (omega arith)
size_loop_lem (suc n) m r a b [] c d z h = ground (arith, c.0, z)
size_loop_lem (suc n) m r a b (x ∷ l) c d z h =
    let z' : m.anchor.at_right ≡ first (rev (b ∷ x ∷ l)) = z ∙ first-append b a (rev (x ∷ l)) in
    let rest : size_loop n m (m.to_right a) (r + 1) ≡ some (r + 1 + length l) =
      subst (λ y. size_loop n m y (r + 1) ≡ some (r + 1 + length l)) (sym c.0)
        (size_loop_lem n m (r + 1) b x l c.1 d.1 z' (omega arith)) in
    let ne : m.to_right a ≢ m.anchor.at_right = λ y. last-ne b x l d.1 (sym z' ∙ sym y ∙ c.0) in
    ground (arith, rest, ne)

destroy_loop_lem :
    (n : ℕ) (m : Memory) (a : ℕ) (l : List ℕ)
    → Onward m.to_right (a ∷ l)
    → IsNodup (a ∷ l)
    → m.anchor.at_right ≡ first (rev (a ∷ l))
    → length l < n
    → destroy_loop n m a ≡ some (a ∷ l)
unfolding destroy_loop
destroy_loop_lem zero m a l c d z h = absurd (omega arith)
destroy_loop_lem (suc n) m a [] c d z h = ground (arith, z)
destroy_loop_lem (suc n) m a (b ∷ l) c d z h =
    let z' : m.anchor.at_right ≡ first (rev (b ∷ l)) = z ∙ first-append b a (rev l) in
    let rest : destroy_loop n m (m.to_right a) ≡ some (b ∷ l) =
      subst (λ y. destroy_loop n m y ≡ some (b ∷ l)) (sym c.0)
        (destroy_loop_lem n m b l c.1 d.1 z' (omega arith)) in
    let ne : a ≢ m.anchor.at_right = λ y. last-ne a b l d (sym z ∙ sym y) in
    ground (arith, rest, ne)

length-contents : (f : ℕ → ℕ) (l : List ℕ) → length (map f l) ≡ length l
length-contents f [] = refl
length-contents f (a ∷ l) = omega (arith, length-contents f l)

abbrev pub first? : List ℕ → Option ℕ
first? [] = none
first? (a ∷ l) = some a

size_lem :
    (n : ℕ) (m : Memory) (l : List ℕ)
    → Shape m left l
    → m.anchor.status ≢ pushing right
    → length l < n
    → size n m ≡ some (length l)
unfolding size
size_lem n m [] s st h = ground (arith, s.near.starts)
size_lem n m (a ∷ []) s st h = ground (arith, s.near.starts, s.far.starts, s.all.0.0)
size_lem n m (a ∷ b ∷ l) s st h =
    let loop : size_loop n m a 2 ≡ some (2 + length l) =
      size_loop_lem n m 2 a b l (Toward-Onward m.to_right (a ∷ b ∷ l) (s.far.firm st)) s.nodup
        s.far.starts (omega arith) in
    let ne : m.anchor.at_right ≢ a = λ y. last-ne a b l s.nodup (sym (s.far.starts) ∙ y) in
    let loop' : size_loop n m m.anchor.at_left 2 ≡ some (2 + length l) =
      subst (λ y. size_loop n m y 2 ≡ some (2 + length l)) (sym (s.near.starts)) loop in
    ground (arith, s.near.starts, loop', ne, s.all.0.0)

destroy_lem :
    (n : ℕ) (m : Memory) (l : List ℕ)
    → Shape m left l
    → m.anchor.status ≢ pushing right
    → length l < n
    → destroy n m ≡ some l
unfolding destroy
destroy_lem n m [] s st h = ground (arith, s.near.starts)
destroy_lem n m (a ∷ l) s st h =
    let loop : destroy_loop n m m.anchor.at_left ≡ some (a ∷ l) =
      subst (λ y. destroy_loop n m y ≡ some (a ∷ l)) (sym (s.near.starts))
        (destroy_loop_lem n m a l (Toward-Onward m.to_right (a ∷ l) (s.far.firm st)) s.nodup
          s.far.starts (omega arith)) in
    ground (arith, s.near.starts, loop, s.all.0.0)

empty_lem : (m : Memory) (l : List ℕ) → Shape m left l → (empty m ≡ true) ↔ (contents m l ≡ [])
unfolding empty
empty_lem m [] s = (λ h. refl, λ h. ground (arith, s.near.starts, s.far.starts))
empty_lem m (a ∷ l) s =
    (λ h. absurd (ground (arith, h, s.near.starts, s.all.0.0)), λ h. absurd (ground (arith, h)))

peek_lem : (m : Memory) (e : End) (v : List ℕ) → Shape m e v → peek e m ≡ first? (map m.value v)
unfolding peek
peek_lem m e [] s = ground (arith, s.near.starts)
peek_lem m e (a ∷ v) s = ground (arith, s.near.starts, s.all.0.0)

-- At a moment of an execution at which no push at the right end is unfinished, and with fuel above the number of
-- elements, `size` counts the elements of the double-ended list that the events make, `empty` tells whether it
-- has none, the peeks return its first element from either end, and the destructor deletes the nodes of its
-- elements, each once and in order.
pub deque_whole :
    (n : ℕ) (es : List Event) (s : System)
    → Run es s
    → s.mem.anchor.status ≢ pushing right
    → (q l : List ℕ) × Replay es q
      × (contents s.mem l ≡ q)
      × IsNodup l
      × (size (length q + suc n) s.mem ≡ some (length q))
      × ((empty s.mem ≡ true) ↔ (q ≡ []))
      × (peek left s.mem ≡ first? q)
      × (peek right s.mem ≡ first? (rev q))
      × (destroy (length q + suc n) s.mem ≡ some l)
deque_whole n es s r st =
    let (l, inv, sp) = Run-Inv r in
    let sh = inv.sound.shape in
    let len : length (contents s.mem l) ≡ length l = length-contents s.mem.value l in
    (
      contents s.mem l,
      l,
      sp,
      refl,
      sh.nodup,
      size_lem (length (contents s.mem l) + suc n) s.mem l sh st (omega (arith, len))
          ∙ ap some (sym len),
      empty_lem s.mem l sh,
      peek_lem s.mem left l sh,
      peek_lem s.mem right (rev l) (Shape-flip s.mem left l sh) ∙ ap first? (map-rev s.mem.value l),
      destroy_lem (length (contents s.mem l) + suc n) s.mem l sh st (omega (arith, len)),
    )
