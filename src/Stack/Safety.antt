-- ===== src/Stack/Safety.antt =====
-- include/amino/stack.h: the stack under every interleaving of its threads.
use amino.Prelude.{ℕ, ◌≡◌, ◌≢◌, ◌<◌, refl, false, List, [], ◌∷◌, arith, contains, subst}
use amino.Stack.Memory.{
  free, retired, Memory, Pc, pop_next, pop_cas, pop_retire, pop_read, pop_delete, pop_return,
  peek_read, peek_return, scan_free, Event,
}
use amino.Stack.System.{System}
use amino.Stack.Run.{Run, start, later, SpecRun, empty, next, Holds}
use amino.Stack.Invariant.{Chain, Inv, contents, Protects, IsFine, Step-Inv, Inv-init}

pub Run-Inv :
    {n : ℕ} {es : List Event} {s : System}
    → Run n es s
    → (l : List ℕ) × Inv n s.mem s.pc l × SpecRun es (contents s.mem l)
Run-Inv {n} start = ([], Inv-init n, empty)
Run-Inv (later r st) =
    let (l, inv, sp) = Run-Inv r in let (l', inv', sp') = Step-Inv inv st in (l', inv', next sp sp')

-- Linearizability: in any execution of any number of threads that push, pop and peek, the events
-- form a run of a sequential stack in the order of the steps that carry them, and in the end
-- the linked nodes hold the contents of that sequential stack, top first.
pub Run-linearizable :
    {n : ℕ} {es : List Event} {s : System}
    → Run n es s
    → (xs : List ℕ) × SpecRun es xs × Holds s.mem xs
Run-linearizable {s} r =
    let (l, inv, sp) = Run-Inv r in (contents s.mem l, sp, (l, inv.shape.chain, refl))

-- The node whose field the next step of a thread reads.
abbrev pub Reads : Pc → ℕ → Type 0
Reads (pop_next old) a = old ≡ a
Reads (pop_read old v) a = old ≡ a
Reads (peek_read old v) a = old ≡ a
Reads _ a = ⊥

settled :
    (n : ℕ) (m : Memory) (pc : ℕ → Pc) (t a : ℕ) (p : Pc)
    → IsFine n m pc t p
    → Reads p a
    → m.owner a ≢ free
settled n m pc t a (pop_next old) f rd = ground arith
settled n m pc t a p f rd = ground arith

split :
    (n : ℕ) (m : Memory) (pc : ℕ → Pc) (t : ℕ) (l : List ℕ) {old new : ℕ}
    → Chain m.next m.top l
    → IsFine n m pc t (pop_cas old new)
    → m.top ≡ old
    → (r : List ℕ) × Chain m.next m.top (old ∷ r) × Chain m.next new r
split n m pc t [] c f top = absurd (ground arith)
split n m pc t (b ∷ l) {old} {new} c f top =
    let same : b ≡ old = ground arith in
    let rest = subst (λ x. Chain m.next (m.next x) l) same c.2 in
    (l, (top, f.0, rest), subst (λ x. Chain m.next x l) f.3 rest)

Run-IsFine :
    {n t : ℕ} {es : List Event} {s : System} {p : Pc}
    → Run n es s
    → t < n
    → s.pc t ≡ p
    → (pc : ℕ → Pc) × IsFine n s.mem pc t p
Run-IsFine {n} {t} {s} r lt e =
    let (l, inv, sp) = Run-Inv r in (s.pc, subst (IsFine n s.mem s.pc t) e (inv.fine t lt))

-- A pop that is about to return hands out the value that its compare-and-swap took off the stack,
-- although it reads the node after it has given up its hazard pointer.
pub pop_returns_taken :
    {n t r v : ℕ} {es : List Event} {s : System}
    → Run n es s
    → t < n
    → s.pc t ≡ pop_return r v
    → r ≡ v
pop_returns_taken r lt e = (Run-IsFine r lt e).1

-- A peek that is about to return hands out the value that was on top at its second load of `top`.
pub peek_returns_top :
    {n t r v : ℕ} {es : List Event} {s : System}
    → Run n es s
    → t < n
    → s.pc t ≡ peek_return r v
    → r ≡ v
peek_returns_top r lt e = (Run-IsFine r lt e).1

-- No use after free: the node that the next step of a thread reads, for its `next` or its `data`, is
-- not the allocator's.
pub no_use_after_free :
    {n t a : ℕ} {es : List Event} {s : System}
    → Run n es s
    → t < n
    → Reads (s.pc t) a
    → s.mem.owner a ≢ free
no_use_after_free {n} {t} {a} {s} r lt rd =
    let (l, inv, sp) = Run-Inv r in settled n s.mem s.pc t a (s.pc t) (inv.fine t lt) rd

-- No ABA: whenever the compare-and-swap of a pop is about to succeed, the node that it installs is
-- still the successor of the node that it takes off, whatever was popped, freed, allocated and
-- pushed since the successor was read.
pub pop_cas_sound :
    {n t old new : ℕ} {es : List Event} {s : System}
    → Run n es s
    → t < n
    → s.pc t ≡ pop_cas old new
    → s.mem.top ≡ old
    → (l : List ℕ) × Chain s.mem.next s.mem.top (old ∷ l) × Chain s.mem.next new l
pop_cas_sound {n} {t} {s} r lt e top =
    let (l, inv, sp) = Run-Inv r in
    split n s.mem s.pc t l inv.shape.chain (subst (IsFine n s.mem s.pc t) e (inv.fine t lt)) top

-- The thread has read `top` for the second time, and a later step of its call still uses the node.
abbrev pub Uses : Pc → ℕ → Type 0
Uses (pop_next old) a = old ≡ a
Uses (pop_cas old new) a = old ≡ a
Uses (pop_retire old v) a = old ≡ a
Uses (pop_read old v) a = old ≡ a
Uses (pop_delete old r v) a = old ≡ a
Uses (peek_read old v) a = old ≡ a
Uses _ a = ⊥

unused :
    (n : ℕ) (m : Memory) (pc : ℕ → Pc) (i t a : ℕ) (p : Pc)
    → IsFine n m pc i p
    → m.owner a ≡ retired t
    → ¬ Protects p a
    → ¬ Uses p a
unused n m pc i t a (pop_next old) f own np u = np u
unused n m pc i t a (pop_cas old new) f own np u = np u
unused n m pc i t a (peek_read old v) f own np u = np u
unused n m pc i t a (pop_retire old v) f own np u = ground (arith, f, own, u)
unused n m pc i t a (pop_read old v) f own np u = ground (arith, f, own, u)
unused n m pc i t a (pop_delete old r v) f own np u = ground (arith, f, own, u)
unused n m pc i t a p f own np u = ground (arith, u)

-- Hazard pointers work: when a scan of the retired list does not find a retired node of its thread in
-- plist and so may release it, no thread is between its second load of `top` and its last use of that
-- node, which in a pop is its own call of `delNode` after the late read of the data and in a peek the read of
-- the data, although the hazard pointers were copied one at a time while the others ran.
pub scan_releases_unguarded :
    {n t r v a i : ℕ} {plist : List ℕ} {es : List Event} {s : System}
    → Run n es s
    → t < n
    → s.pc t ≡ scan_free r v plist
    → s.mem.owner a ≡ retired t
    → contains a plist ≡ false
    → i < n
    → ¬ Uses (s.pc i) a
scan_releases_unguarded {n} {t} {a} {i} {s} r lt e own miss below =
    let (l, inv, sp) = Run-Inv r in
    let f = subst (IsFine n s.mem s.pc t) e (inv.fine t lt) in
    unused n s.mem s.pc i t a (s.pc i) (inv.fine i below) own
      (λ pr. cc (f.1 i a below below own pr))
