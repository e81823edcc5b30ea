-- ===== src/HashSet/Safety.antt =====
-- include/amino/lockfree_set.h: the hash set against a list of its elements.
use amino.Prelude.{
  ℕ, ◌^◌, ◌<◌, ◌≡◌, ◌↔◌, refl, arith, Bool, true, not, List, [], ◌∷◌, Option, some, contains,
  length, ◌==◌, if◌then◌else◌, All,
}
use amino.HashSet.Table.{Set, ◌>>=◌, insert, remove, search, init, empty}
use amino.HashSet.Valid.{Valid}
use amino.HashSet.Elements.{delete}
use amino.HashSet.Start.{init_lem}
use amino.HashSet.Answers.{Holds, search_lem, remove_lem, insert_lem}

pub data Call : Type 0 where
  inserts : ℕ → Call
  removes : ℕ → Call
  searches : ℕ → Call

abbrev pub element_of : Call → ℕ
element_of (inserts e) = e
element_of (removes e) = e
element_of (searches e) = e

-- The same on a list of elements.
unfoldable pub reply : Call → List ℕ → Bool
reply (inserts e) q = not (contains e q)
reply (removes e) q = contains e q
reply (searches e) q = contains e q

unfoldable pub after : Call → List ℕ → List ℕ
unfolding delete
after (inserts e) q = if contains e q then q else e ∷ q
after (removes e) q = delete e q
after (searches e) q = q

unfoldable pub replies : List Call → List ℕ → List Bool
unfolding reply after
replies [] q = []
replies (c ∷ cs) q = reply c q ∷ replies cs (after c q)

unfoldable pub elements_after : List Call → List ℕ → List ℕ
unfolding after
elements_after [] q = q
elements_after (c ∷ cs) q = elements_after cs (after c q)

module _ (hash : ℕ → ℕ) where
  unfoldable pub answer : Call → Set → Option (Bool × Set)
  unfolding insert remove search
  answer (inserts e) s = insert hash e s
  answer (removes e) s = remove hash e s
  answer (searches e) s = search hash e s

  unfoldable pub run_calls : List Call → Set → Option (List Bool × Set)
  unfolding answer
  run_calls [] s = some ([], s)
  run_calls (c ∷ cs) s = do (b, s₁) ← answer c s; (bs, s₂) ← run_calls cs s₁; some (b ∷ bs, s₂)

  answer_lem :
      {j g : ℕ} {s : Set} {q : List ℕ} (c : Call)
      → Valid j g s
      → Holds hash s q
      → hash (element_of c) < 2 ^ 31
      → (k : ℕ) × (u : Set) × (answer c s ≡ some (reply c q, u))
        × Valid k g u
        × Holds hash u (after c q)
  unfolding answer reply after
  answer_lem (inserts e) v m h = insert_lem hash e v m h
  answer_lem (removes e) v m h = remove_lem hash e v m h
  answer_lem (searches e) v m h = search_lem hash e v m h

  run_calls_lem :
      (cs : List Call) {j g : ℕ} {s : Set} {q : List ℕ}
      → Valid j g s
      → Holds hash s q
      → All (λ c. hash (element_of c) < 2 ^ 31) cs
      → (u : Set) × (run_calls cs s ≡ some (replies cs q, u)) × Holds hash u (elements_after cs q)
  unfolding run_calls replies elements_after
  run_calls_lem [] {s = s} v m h = (s, refl, m)
  run_calls_lem (c ∷ cs) v m (h, hs) =
      let (k, t, run, vt, mt) = answer_lem c v m h in
      let (u, rest, mu) = run_calls_lem cs vt mt hs in (u, rw (run, rest) refl, mu)

empty_iff : (q : List ℕ) (n : ℕ) → n ≡ length q → (((n == 0) ≡ true) ↔ (q ≡ []))
empty_iff [] n h = (λ _. refl, λ _. ground arith)
empty_iff (x ∷ q) n h = (λ k. absurd (ground (arith, k)), λ k. absurd (ground (arith, k)))

-- The set after a sequence of calls by one thread, for a hash below 2 ^ 31 and an expected size below 2 ^ 30: the constructor
-- and every call return; each call answers as on a list of distinct elements; the count is the length of that
-- list, and `empty` says whether it has none.
pub set_replies :
    (hash : ℕ → ℕ) (n : ℕ) (over : ℕ → Bool) (cs : List Call)
    → n < 2 ^ 30
    → All (λ c. hash (element_of c) < 2 ^ 31) cs
    → (s u : Set) × (init n over ≡ some s)
      × (run_calls hash cs s ≡ some (replies cs [], u))
      × (u.count ≡ length (elements_after cs []))
      × ((empty u ≡ true) ↔ (elements_after cs [] ≡ []))
unfolding empty
set_replies hash n over cs h hs =
    let (g, s, made, v, m) = init_lem hash n over h in
    let (u, run, mu) = run_calls_lem hash cs v m hs in
    (s, u, made, run, mu.counted, empty_iff (elements_after cs []) u.count (mu.counted))
