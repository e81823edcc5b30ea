-- ===== src/Ordered/Memory.antt =====
-- include/amino/ordered_list.h and list.h: the memory that the threads share, and where a thread stands.
use amino.Prelude.{ℕ, Bool, true, false, ◌≡◌}

-- What a node is used for; the program does not store this. `free` is the allocator's, `fresh t` was made by thread
-- t, `linked` stands in the list, `unlinked` was taken out of it.
pub data Owner : Type 0 where
  free : Owner
  fresh : ℕ → Owner
  linked : Owner
  unlinked : Owner

-- A node is named by its address, and 0 is NULL. The pointer that a node `a` keeps in `next` is `next a` with the
-- mark `marked a` in its last bit, and the pointer `head` is that of 0: so 0 names a cell too.
pub record Memory : Type 0 where
  pub key : ℕ → ℕ  -- NodeType::data
  pub next : ℕ → ℕ
  pub marked : ℕ → Bool
  pub owner : ℕ → Owner

-- The cell `p` holds the pointer to `a` without a mark; and the contrary.
abbrev pub Points : Memory → (p a : ℕ) → Type 0
Points m p a = (m.next p ≡ a) × (m.marked p ≡ false)

abbrev pub Differs : Memory → (p a : ℕ) → Type 0
Differs m p a = (m.next p ≡ a) × (m.marked p ≡ false) → ⊥

-- What a call of `find` is for; `cleaning` is the one at the end of `remove`, whose result is not used.
pub data Goal : Type 0 where
  inserting : (d node : ℕ) → Goal
  removing : (d : ℕ) → Goal
  searching : (d : ℕ) → Goal
  cleaning : (d : ℕ) → Goal

abbrev pub key_of : Goal → ℕ
key_of (inserting d node) = d
key_of (removing d) = d
key_of (searching d) = d
key_of (cleaning d) = d

pub data Event : Type 0 where
  silent : Event
  called : (t : ℕ) → Event
  added : (d : ℕ) → Event
  removed : (d : ℕ) → Event
  answered : (t d : ℕ) (found : Bool) → Event
  recycled : (a : ℕ) → Event

-- Where a thread stands, with its live locals. `prev` is a cell.
pub data Pc : Type 0 where
  idle : Pc
  find_load : Goal → Pc
  find_check : Goal → (cur : ℕ) → Pc
  loop : Goal → (prev cur : ℕ) → Pc
  reread : Goal → (prev cur next : ℕ) → (cmark : Bool) → Pc
  recheck : Goal → (prev cur next : ℕ) → (cmark : Bool) → Pc
  unlink : Goal → (prev cur next : ℕ) → Pc
  add_store : (d node prev cur : ℕ) → Pc
  add_cas : (d node prev cur : ℕ) → Pc
  remove_mark : (d prev cur next : ℕ) → Pc
  remove_cut : (d prev cur next : ℕ) → Pc

-- Where the caller of `find` goes on when the key is there, and what the user sees then.
abbrev pub on_found : Goal → (prev cur next : ℕ) → Pc
on_found (inserting d node) prev cur next = idle
on_found (removing d) prev cur next = remove_mark d prev cur next
on_found (searching d) prev cur next = idle
on_found (cleaning d) prev cur next = idle

abbrev pub found_event : ℕ → Goal → Event
found_event t (inserting d node) = answered t d true
found_event t (removing d) = silent
found_event t (searching d) = answered t d true
found_event t (cleaning d) = silent

-- The same when the key is not there.
abbrev pub on_missing : Goal → (prev cur : ℕ) → Pc
on_missing (inserting d node) prev cur = add_store d node prev cur
on_missing (removing d) prev cur = idle
on_missing (searching d) prev cur = idle
on_missing (cleaning d) prev cur = idle

abbrev pub missing_event : ℕ → Goal → Event
missing_event t (inserting d node) = silent
missing_event t (removing d) = answered t d false
missing_event t (searching d) = answered t d false
missing_event t (cleaning d) = silent
