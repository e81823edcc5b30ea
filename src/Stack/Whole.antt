-- ===== src/Stack/Whole.antt =====
-- include/amino/stack.h: the operations that walk the whole stack, in a memory that no thread changes
-- meanwhile: `empty`, `size` and the destructor. The loops run on fuel, `none` when it runs out.
use amino.Prelude.{
  ℕ, zero, suc, ◌+◌, ◌≡◌, ◌≢◌, ◌<◌, ◌↔◌, refl, Bool, true, List, [], ◌∷◌, Option, none, some, arith,
  ◌==◌, if◌then◌else◌, length, All, IsNodup, ap, ◌∙◌, subst,
}
use mathlib.Core.Option
use amino.Stack.Memory.{free, linked, Memory, Event}
use amino.Stack.System.{System}
use amino.Stack.Run.{Run}
use amino.Stack.Invariant.{Chain}
use amino.Stack.Safety.{Run-Inv}

pub empty : Memory → Bool
empty m = m.top == 0

size_loop : ℕ → (ℕ → ℕ) → ℕ → ℕ → Option ℕ
size_loop zero next node ret = none
size_loop (suc fuel) next node ret =
    let rest = size_loop fuel next (next node) (ret + 1) in if node == 0 then some ret else rest

pub size : ℕ → Memory → Option ℕ
unfolding size_loop
size fuel m = size_loop fuel m.next m.top 0

-- The nodes that the destructor deletes, in order. A node's `next` is read before it is deleted.
destroy_loop : ℕ → (ℕ → ℕ) → ℕ → Option (List ℕ)
destroy_loop zero next first = none
destroy_loop (suc fuel) next first =
    let rest = Option.map (λ l. first ∷ l) (destroy_loop fuel next (next first)) in
    if first == 0 then some [] else rest

pub destroy : ℕ → Memory → Option (List ℕ)
unfolding destroy_loop
destroy fuel m = destroy_loop fuel m.next m.top

size_loop_lem :
    (fuel : ℕ) (next : ℕ → ℕ) (node ret : ℕ) (l : List ℕ)
    → Chain next node l
    → length l < fuel
    → size_loop fuel next node ret ≡ some (ret + length l)
unfolding size_loop
size_loop_lem zero next node ret l c h = absurd (omega arith)
size_loop_lem (suc fuel) next node ret [] c h = ground arith
size_loop_lem (suc fuel) next node ret (a ∷ l) c h =
    ground (arith, c.0, c.1, size_loop_lem fuel next (next a) (ret + 1) l c.2 (omega arith))

destroy_loop_lem :
    (fuel : ℕ) (next : ℕ → ℕ) (first : ℕ) (l : List ℕ)
    → Chain next first l
    → length l < fuel
    → destroy_loop fuel next first ≡ some l
unfolding destroy_loop
destroy_loop_lem zero next first l c h = absurd (omega arith)
destroy_loop_lem (suc fuel) next first [] c h = ground arith
destroy_loop_lem (suc fuel) next first (a ∷ l) c h =
    ground (arith, c.0, c.1, destroy_loop_lem fuel next (next a) l c.2 (omega arith))

empty_iff : (m : Memory) (l : List ℕ) → Chain m.next m.top l → (empty m ≡ true) ↔ (l ≡ [])
unfolding empty
empty_iff m [] c = ground arith
empty_iff m (a ∷ l) c = (λ e. absurd (ground arith), λ e. cc)

not_free :
    (m : Memory) (l : List ℕ) → All (λ a. m.owner a ≡ linked) l → All (λ a. m.owner a ≢ free) l
not_free m [] h = tt
not_free m (a ∷ l) h = (λ e. ground (arith, h.0), not_free m l h.1)

Chain-unique : (next : ℕ → ℕ) (p : ℕ) (l r : List ℕ) → Chain next p l → Chain next p r → l ≡ r
Chain-unique next p [] [] c d = refl
Chain-unique next p [] (b ∷ r) c d = absurd (ground arith)
Chain-unique next p (a ∷ l) [] c d = absurd (ground arith)
Chain-unique next p (a ∷ l) (b ∷ r) c d =
    let same : b ≡ a = ground arith in
    ground (
      arith,
      same,
      Chain-unique next (next a) l r c.2 (subst (λ x. Chain next (next x) r) same d.2),
    )

-- In a state that threads have reached and now leave alone, let `l` be the nodes from `top` to NULL:
-- they are distinct and in use, `empty` tells whether there are none, and with more fuel than
-- their number `size` returns it and the destructor deletes just these nodes, each once.
pub size_and_destroy :
    {n : ℕ} {es : List Event} {s : System} (l : List ℕ) (fuel : ℕ)
    → Run n es s
    → Chain s.mem.next s.mem.top l
    → length l < fuel
    → (empty s.mem ≡ true ↔ (l ≡ []))
      × (size fuel s.mem ≡ some (length l))
      × (destroy fuel s.mem ≡ some l)
      × IsNodup l
      × All (λ a. s.mem.owner a ≢ free) l
unfolding size destroy
size_and_destroy {s} l fuel r c h =
    let (l', inv, sp) = Run-Inv r in
    let same = Chain-unique s.mem.next s.mem.top l' l inv.shape.chain c in
    (
      empty_iff s.mem l c,
      size_loop_lem fuel s.mem.next s.mem.top 0 l c h ∙ ap some (omega arith),
      destroy_loop_lem fuel s.mem.next s.mem.top l c h,
      subst IsNodup same inv.shape.nodup,
      subst (All (λ a. s.mem.owner a ≢ free)) same (not_free s.mem l' inv.shape.owned),
    )
