-- ===== src/Queue/Recycle.antt =====
-- include/amino/queue.h: a removed node goes back to the allocator while no thread uses it.
use amino.Prelude.{ℕ, ◌≡◌, inl, inr, List, ◌∷◌, arith, update, All-update}
use amino.Queue.Memory.{
  free, linked, removed, Memory, Pc, idle, enq_load, enq_check, enq_next, enq_recheck, enq_help,
  enq_cas, enq_swing, deq_load, deq_check, deq_next, deq_recheck, deq_tail, deq_help, deq_data,
  deq_cas,
}
use amino.Queue.System.{Uses}
use amino.Queue.Invariant.{WasHead, TailPast, IsNew, IsPublished, Follows, IsFine, Shape}
use amino.Queue.Shape.{unlinked}

module _ (m : Memory) (a : ℕ) (gone : m.owner a ≡ removed) where
  abbrev pub after : Memory
  after = record m { owner = update m.owner a free }

  WasHead-recycle : (p : ℕ) → (a ≡ p → ⊥) → WasHead m p → WasHead after p
  WasHead-recycle p u (inl h) = inl h
  WasHead-recycle p u (inr r) = inr (ground (arith, u, r))

  TailPast-recycle : (p : ℕ) → (a ≡ p → ⊥) → TailPast m p → TailPast after p
  TailPast-recycle p u (inl h) = inl h
  TailPast-recycle p u (inr r) = inr (ground (arith, u, r))

  IsPublished-recycle : (p : ℕ) → (a ≡ p → ⊥) → IsPublished m p → IsPublished after p
  IsPublished-recycle p u h = ground (arith, u, h)

  Follows-recycle : (p nx : ℕ) → (a ≡ p → ⊥) → Follows m p nx → Follows after p nx
  Follows-recycle p nx u y = (IsPublished-recycle p u y.0, y.1, y.2)

  IsNew-recycle : (j d node : ℕ) → IsNew m j d node → IsNew after j d node
  IsNew-recycle j d node (o, nz, v, x) = (ground (arith, gone, o), nz, v, x)

  -- What a thread knows stays true when it does not use the node.
  pub IsFine-recycle : (j : ℕ) (p : Pc) → (Uses p a → ⊥) → IsFine m j p → IsFine after j p
  IsFine-recycle j idle u f = tt
  IsFine-recycle j (enq_load d node) u f = IsNew-recycle j d node f
  IsFine-recycle j (enq_check d node pt) u f = IsNew-recycle j d node f
  IsFine-recycle j (enq_next d node pt) u f =
      (IsNew-recycle j d node f.0, IsPublished-recycle pt u f.1)
  IsFine-recycle j (enq_recheck d node pt nx) u (new, p, inl z) =
      (IsNew-recycle j d node new, IsPublished-recycle pt u p, inl z)
  IsFine-recycle j (enq_recheck d node pt nx) u (new, p, inr y) =
      (IsNew-recycle j d node new, IsPublished-recycle pt u p, inr (Follows-recycle pt nx u y))
  IsFine-recycle j (enq_help d node pt nx) u f =
      (IsNew-recycle j d node f.0, Follows-recycle pt nx u f.1)
  IsFine-recycle j (enq_cas d node pt) u f =
      (IsNew-recycle j d node f.0, IsPublished-recycle pt u f.1)
  IsFine-recycle j (enq_swing node pt) u f = Follows-recycle pt node u f
  IsFine-recycle j deq_load u f = tt
  IsFine-recycle j (deq_check ph) u f = tt
  IsFine-recycle j (deq_next ph) u f = (IsPublished-recycle ph u f.0, WasHead-recycle ph u f.1)
  IsFine-recycle j (deq_recheck ph nx) u f = (Follows-recycle ph nx u f.0, WasHead-recycle ph u f.1)
  IsFine-recycle j (deq_tail ph nx) u f = (Follows-recycle ph nx u f.0, WasHead-recycle ph u f.1)
  IsFine-recycle j (deq_help ph nx) u f = (Follows-recycle ph nx u f.0, WasHead-recycle ph u f.1)
  IsFine-recycle j (deq_data ph nx) u (y, past, inl p) = (
    Follows-recycle ph nx (λ e. u (inl e)) y,
    TailPast-recycle ph (λ e. u (inl e)) past,
    inl (IsPublished-recycle nx (λ e. u (inr e)) p),
  )
  IsFine-recycle j (deq_data ph nx) u (y, past, inr r) = (
    Follows-recycle ph nx (λ e. u (inl e)) y,
    TailPast-recycle ph (λ e. u (inl e)) past,
    inr (ground (arith, r, λ (e : a ≡ ph). u (inl e))),
  )
  IsFine-recycle j (deq_cas ph nx r) u (y, past, inl (p, v)) = (
    Follows-recycle ph nx (λ e. u (inl e)) y,
    TailPast-recycle ph (λ e. u (inl e)) past,
    inl (IsPublished-recycle nx (λ e. u (inr e)) p, v),
  )
  IsFine-recycle j (deq_cas ph nx r) u (y, past, inr k) = (
    Follows-recycle ph nx (λ e. u (inl e)) y,
    TailPast-recycle ph (λ e. u (inl e)) past,
    inr (ground (arith, k, λ (e : a ≡ ph). u (inl e))),
  )

  pub Shape-recycle : (l : List ℕ) → Shape m l → Shape after l
  Shape-recycle l s = record {
    chain = s.chain;
    nodup = s.nodup;
    linked_all =
        All-update (λ c. c ≡ linked) m.owner a free (m.head ∷ l)
          (unlinked m l s a (λ h. ground (arith, gone, h))) s.linked_all;
    linked_only = λ b h. s.linked_only b (ground (arith, h));
    removed_next = λ b h. ground (arith, h, s.removed_next b);
    tail_in = s.tail_in;
  }
