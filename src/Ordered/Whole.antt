-- ===== src/Ordered/Whole.antt =====
-- include/amino/ordered_list.h: `front`, `empty` and the destructor, on the memory of one moment.
use amino.Prelude.{
  ℕ, zero, suc, ◌+◌, ◌≡◌, ◌≢◌, ◌<◌, ◌↔◌, refl, sym, ◌∙◌, ap, subst, Bool, true, false, List, [],
  ◌∷◌, arith, Option, none, some, ◌==◌, if◌then◌else◌, length, All,
}
use amino.Ordered.Memory.{linked, Memory, Event}
use amino.Ordered.System.{System, Run, AllGuarded, Replay}
use amino.Ordered.Splice.{Linked, Rising}
use amino.Ordered.Live.{rank}
use amino.Ordered.Invariant.{contents}
use amino.Ordered.Safety.{Run-Inv}

pub empty : Memory → Bool
empty m = m.next 0 == 0

unfoldable pub front : Memory → Option ℕ
front m = if m.next 0 == 0 then none else some (m.key (m.next 0))

-- The destructor: the nodes it deletes, in order; `none` is a loop that has not ended within the fuel.
pub destroy_loop : ℕ → Memory → ℕ → Option (List ℕ)
destroy_loop zero m node = none
destroy_loop (suc n) m node =
    let rest = destroy_loop n m (m.next node) in
    if node == 0 then some [] else elim rest [ none ↦ none | some l ↦ some (node ∷ l) ]

pub destroy : ℕ → Memory → Option (List ℕ)
unfolding destroy_loop
destroy fuel m = destroy_loop fuel m (m.next 0)

abbrev pub first? : List ℕ → Option ℕ
first? [] = none
first? (a ∷ l) = some a

rank_nonzero : (key : ℕ → ℕ) (p a : ℕ) → rank key p < rank key a → a ≢ 0
rank_nonzero key p a h e = omega (arith, h, ap (rank key) e)

destroy_loop_lem :
    (n : ℕ) (m : Memory) (p : ℕ) (l : List ℕ)
    → Linked m.next p l
    → Rising (rank m.key) p l
    → length l < n
    → destroy_loop n m (m.next p) ≡ some l
unfolding destroy_loop
destroy_loop_lem zero m p l k g h = absurd (omega arith)
destroy_loop_lem (suc n) m p [] k g h = ground (arith, k)
destroy_loop_lem (suc n) m p (a ∷ l) k g h =
    let rest : destroy_loop n m (m.next a) ≡ some l =
      destroy_loop_lem n m a l k.1 g.1 (omega arith) in
    subst (λ z. destroy_loop (suc n) m z ≡ some (a ∷ l)) (sym k.0)
      (ground (arith, rest, rank_nonzero m.key p a g.0))

front_lem :
    (m : Memory) (l : List ℕ)
    → Linked m.next 0 l
    → Rising (rank m.key) 0 l
    → All (λ a. m.marked a ≡ false) l
    → (front m ≡ first? (contents m l)) × ((empty m ≡ true) ↔ (contents m l ≡ []))
unfolding front empty
front_lem m [] k g h = (ground (arith, k), ((λ z. refl), λ z. ground (arith, k)))
front_lem m (a ∷ l) k g h =
    let nz : m.next 0 ≢ 0 = λ z. rank_nonzero m.key 0 a g.0 (sym k.0 ∙ z) in
    (
      ground (arith, k.0, nz, h.0, ap m.key k.0),
      ((λ z. absurd (ground (arith, z, nz))), λ z. absurd (ground (arith, z, h.0))),
    )

linked_unmarked :
    (m : Memory) (l : List ℕ)
    → ((a : ℕ) → m.owner a ≡ linked → m.marked a ≡ false)
    → All (λ a. m.owner a ≡ linked) l
    → All (λ a. m.marked a ≡ false) l
linked_unmarked m [] u h = tt
linked_unmarked m (a ∷ l) u h = (u a h.0, linked_unmarked m l u h.1)

-- In an execution in which the allocator takes back no node that a thread uses, at a moment at which no linked node is
-- marked, and with fuel above the number of linked nodes, `front`
-- returns the least key of the set that the events make, `empty` tells whether it has none, and the destructor
-- deletes each linked node once, in the ascending order of their keys.
pub ordered_list_whole :
    (n : ℕ) (es : List Event) (s : System)
    → (r : Run es s) → AllGuarded r
    → ((a : ℕ) → s.mem.owner a ≡ linked → s.mem.marked a ≡ false)
    → (q : List ℕ) × (qs : List (List ℕ)) × (l : List ℕ) × Replay es (q ∷ qs)
      × (contents s.mem l ≡ q)
      × Rising (rank s.mem.key) 0 l
      × (front s.mem ≡ first? q)
      × ((empty s.mem ≡ true) ↔ (q ≡ []))
      × (destroy (length l + suc n) s.mem ≡ some l)
unfolding destroy
ordered_list_whole n es s r guarded u =
    let (qs, l, inv, sp) = Run-Inv r guarded in
    let k = inv.sound.chain in
    let g = inv.sound.rising in
    let (f, e) = front_lem s.mem l k g (linked_unmarked s.mem l u inv.sound.all) in
    (
      contents s.mem l,
      qs,
      l,
      sp,
      refl,
      g,
      f,
      e,
      destroy_loop_lem (length l + suc n) s.mem 0 l k g (omega arith),
    )
