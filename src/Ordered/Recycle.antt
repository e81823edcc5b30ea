-- ===== src/Ordered/Recycle.antt =====
-- include/amino/ordered_list.h: a node out of the list goes back to the allocator while no thread uses it.
use amino.Prelude.{
  ℕ, Bool, true, false, ◌≡◌, ◌⊎◌, inl, inr, List, arith, update, All-update, All-NotIn,
}
use amino.Ordered.Memory.{
  free, linked, unlinked, Memory, Goal, inserting, removing, searching, cleaning, key_of, Pc, idle,
  find_load, find_check, loop, reread, recheck, unlink, add_store, add_cas, remove_mark, remove_cut,
}
use amino.Ordered.System.{Uses}
use amino.Ordered.Invariant.{IsPublished, Old, IsNew, IsPrev, IsBeyond, IsFineGoal, IsFine, IsSound}

module _ (m : Memory) (a : ℕ) (gone : m.owner a ≡ unlinked) where
  abbrev pub after : Memory
  after = record m { owner = update m.owner a free }

  Published-recycle : (p : ℕ) → (a ≡ p → ⊥) → IsPublished m p → IsPublished after p
  Published-recycle p u h = ground (arith, u, h)

  Old-recycle : (p : ℕ) → (a ≡ p → ⊥) → Old m p → Old after p
  Old-recycle p u (inl z) = inl z
  Old-recycle p u (inr h) = inr (Published-recycle p u h)

  Next-recycle :
      (cur nx : ℕ)
      → (a ≡ cur → ⊥)
      → (a ≡ nx → ⊥)
      → Old m nx ⊎ (m.owner cur ≡ unlinked)
      → Old after nx ⊎ (after.owner cur ≡ unlinked)
  Next-recycle cur nx u v (inl o) = inl (Old-recycle nx v o)
  Next-recycle cur nx u v (inr r) = inr (ground (arith, u, r))

  IsPrev-recycle : (d p : ℕ) → (a ≡ p → ⊥) → IsPrev m d p → IsPrev after d p
  IsPrev-recycle d p u (inl z) = inl z
  IsPrev-recycle d p u (inr (h, k)) = inr (Published-recycle p u h, k)

  IsBeyond-recycle : (d p : ℕ) → (a ≡ p → ⊥) → IsBeyond m d p → IsBeyond after d p
  IsBeyond-recycle d p u (inl z) = inl z
  IsBeyond-recycle d p u (inr (h, k)) = inr (Published-recycle p u h, k)

  IsNew-recycle : (j d node : ℕ) → IsNew m j d node → IsNew after j d node
  IsNew-recycle j d node (o, nz, k, b) = (ground (arith, gone, o), nz, k, b)

  Goal-recycle : (j : ℕ) (g : Goal) → IsFineGoal m j g → IsFineGoal after j g
  Goal-recycle j (inserting d node) f = IsNew-recycle j d node f
  Goal-recycle j (removing d) f = tt
  Goal-recycle j (searching d) f = tt
  Goal-recycle j (cleaning d) f = tt

  -- What a thread knows stays true when it does not use the node.
  pub IsFine-recycle :
      (saw saw' : ℕ → ℕ → Bool → Type 0) (j : ℕ) (p : Pc)
      → (Uses p a → ⊥)
      → ((d : ℕ) (b : Bool) → saw j d b → saw' j d b)
      → IsFine m saw j p
      → IsFine after saw' j p
  IsFine-recycle saw saw' j idle u w f = tt
  IsFine-recycle saw saw' j (find_load g) u w f = Goal-recycle j g f
  IsFine-recycle saw saw' j (find_check g cur) u w f = Goal-recycle j g f
  IsFine-recycle saw saw' j (loop g prev cur) u w (f, p, o, s) = (
    Goal-recycle j g f,
    IsPrev-recycle (key_of g) prev (λ e. u (inl e)) p,
    Old-recycle cur (λ e. u (inr e)) o,
    λ z. w (key_of g) false (s z),
  )
  IsFine-recycle saw saw' j (reread g prev cur nx mk) u w (f, p, c, d) = (
    Goal-recycle j g f,
    IsPrev-recycle (key_of g) prev (λ e. u (inl e)) p,
    Published-recycle cur (λ e. u (inr e)) c,
    d,
  )
  IsFine-recycle saw saw' j (recheck g prev cur nx mk) u w (f, p, c, o, d, i, v) = (
    Goal-recycle j g f,
    IsPrev-recycle (key_of g) prev (λ e. u (inl e)) p,
    Published-recycle cur (λ e. u (inr (inl e))) c,
    Next-recycle cur nx (λ e. u (inr (inl e))) (λ e. u (inr (inr e))) o,
    d,
    (λ z k. w (key_of g) true (i z k)),
    λ z n k. w (key_of g) false (v z n k),
  )
  IsFine-recycle saw saw' j (unlink g prev cur nx) u w (f, p, c, d) = (
    Goal-recycle j g f,
    IsPrev-recycle (key_of g) prev (λ e. u (inl e)) p,
    Published-recycle cur (λ e. u (inr e)) c,
    d,
  )
  IsFine-recycle saw saw' j (add_store d node prev cur) u w (f, p, b) = (
    IsNew-recycle j d node f,
    IsPrev-recycle d prev (λ e. u (inl e)) p,
    IsBeyond-recycle d cur (λ e. u (inr e)) b,
  )
  IsFine-recycle saw saw' j (add_cas d node prev cur) u w (f, p, b, n) = (
    IsNew-recycle j d node f,
    IsPrev-recycle d prev (λ e. u (inl e)) p,
    IsBeyond-recycle d cur (λ e. u (inr e)) b,
    n,
  )
  IsFine-recycle saw saw' j (remove_mark d prev cur nx) u w (p, c, k) =
      (IsPrev-recycle d prev (λ e. u (inl e)) p, Published-recycle cur (λ e. u (inr e)) c, k)
  IsFine-recycle saw saw' j (remove_cut d prev cur nx) u w (p, c, x) =
      (IsPrev-recycle d prev (λ e. u (inl e)) p, Published-recycle cur (λ e. u (inr e)) c, x)

  pub IsSound-recycle : (l : List ℕ) → IsSound m l → IsSound after l
  IsSound-recycle l s = record {
    chain = s.chain;
    rising = s.rising;
    all =
        All-update (λ o. o ≡ linked) m.owner a free l
          (All-NotIn m.owner linked a l (λ h. ground (arith, gone, h)) s.all) s.all;
    live_in = λ b q k. s.live_in b (ground (arith, q)) k;
    linked_in = λ b h. s.linked_in b (ground (arith, h));
    null = ground (arith, gone, s.null);
    head = s.head;
  }
