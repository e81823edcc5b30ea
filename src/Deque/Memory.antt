-- ===== src/Deque/Memory.antt =====
-- include/amino/deque.h: the memory that the threads share, and where a thread stands.
use amino.Prelude.{ℕ, update}
use amino.Blocking.{End, left, right}

abbrev pub opp : End → End
opp left = right
opp right = left

-- The left or the right one of two things.
abbrev pub side_of {ℓ} : {A : Type ℓ} → End → A → A → A
side_of left x y = x
side_of right x y = y

-- STABLE, RPUSH and LPUSH.
pub data Status : Type 0 where
  stable : Status
  pushing : End → Status

pub record Anchor : Type 0 where
  pub at_left : ℕ
  pub at_right : ℕ
  pub status : Status

-- `getLeft` and `getRight`.
abbrev pub end_of : End → Anchor → ℕ
end_of e a = side_of e a.at_left a.at_right

-- The anchor with its pointer at end `e`, the one at the other end, and its status.
abbrev pub anchor_of : End → ℕ → ℕ → Status → Anchor
anchor_of e x y s = record { at_left = side_of e x y; at_right = side_of e y x; status = s }

-- What a node is used for; the program does not store this. `free` is the allocator's, `fresh t` is being
-- filled by thread t, `pushed n` was the push of number n.
pub data Owner : Type 0 where
  free : Owner
  fresh : ℕ → Owner
  pushed : ℕ → Owner

-- A node is named by its address, and 0 is NULL. `pushes` counts the nodes that were pushed.
pub record Memory : Type 0 where
  pub anchor : Anchor
  pub value : ℕ → ℕ  -- Node::data
  pub to_left : ℕ → ℕ  -- Node::left
  pub to_right : ℕ → ℕ  -- Node::right
  pub owner : ℕ → Owner
  pub pushes : ℕ

abbrev pub link : End → Memory → ℕ → ℕ
link e m = side_of e m.to_left m.to_right

abbrev pub set_link : End → ℕ → ℕ → Memory → Memory
set_link e x v m = record m {
  to_left = side_of e (update m.to_left x v) m.to_left;
  to_right = side_of e m.to_right (update m.to_right x v);
}

-- Where a call of `stabilize` goes on: it returns from a push, or to the loop of a push or a pop.
pub data After : Type 0 where
  done : After
  push : (e : End) (d node : ℕ) → After
  pop : (e : End) → After

-- Where a thread stands, with its live locals. `old` and `a` are copies of the anchor, `e` is the end that
-- the call works on.
pub data Pc : Type 0 where
  idle : Pc
  push_load : (e : End) (d node : ℕ) → Pc
  push_first : (e : End) (d node : ℕ) → Anchor → Pc
  push_link : (e : End) (d node : ℕ) → Anchor → Pc
  push_cas : (e : End) (d node : ℕ) → Anchor → Pc
  pop_load : (e : End) → Pc
  pop_one : (e : End) → Anchor → Pc
  pop_one_cas : (e : End) → Anchor → Pc
  pop_left : (e : End) → Anchor → Pc
  pop_right : (e : End) → Anchor → Pc
  pop_check : (e : End) → Anchor → Pc
  pop_prev : (e : End) → Anchor → Pc
  pop_recheck : (e : End) → Anchor → (prev : ℕ) → Pc
  pop_cas : (e : End) → Anchor → (prev : ℕ) → Pc
  pop_read : (x v : ℕ) → Pc
  pop_return : (r v : ℕ) → Pc
  stab_left : (e : End) → Anchor → After → Pc
  stab_right : (e : End) → Anchor → After → Pc
  stab_check : (e : End) → Anchor → After → Pc
  stab_prev : (e : End) → Anchor → After → Pc
  stab_end : (e : End) → Anchor → (prev : ℕ) → After → Pc
  stab_recheck : (e : End) → Anchor → (prev : ℕ) → After → Pc
  stab_next : (e : End) → Anchor → (prev : ℕ) → After → Pc
  stab_again : (e : End) → Anchor → (prev next : ℕ) → After → Pc
  stab_fix : (e : End) → Anchor → (prev next : ℕ) → After → Pc
  stab_cas : (e : End) → Anchor → After → Pc

-- Where the caller of `stabilize` goes on.
abbrev pub resume : After → Pc
resume done = idle
resume (push e d node) = push_load e d node
resume (pop e) = pop_load e
