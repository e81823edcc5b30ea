-- ===== src/Smr/Record.antt =====
-- include/amino/smr.h: `HPRecType`, the record of one thread, with FREELIST defined (util.h:22).
-- Addresses are numbers, and 0 is NULL. Where an operation may call `new`, the address that the heap
-- would hand out is an argument; what an operation deletes is a part of its result.
use amino.Prelude.{
  ℕ, zero, suc, ◌+◌, ◌-◌, Bool, false, List, [], ◌∷◌, Option, none, some, ◌==◌, ltb, if◌then◌else◌,
  update, map,
}

abbrev pub max_free_nodes : ℕ
max_free_nodes = 32

-- `SMRListNode`: where it lies, and the data node that it names.
pub record SmrNode : Type 0 where
  pub address : ℕ
  pub node : ℕ

-- The retired list `rlist` and the free list `frListSMR` are lists, first element first, beside the
-- counts that the code keeps of them; `frListData` is an array.
pub record HpRec : Type 0 where
  pub hp : List ℕ
  pub active : Bool
  pub rlist : List SmrNode
  pub rcount : ℕ
  pub nr_threads : ℕ
  pub fr_smr : List ℕ
  pub fr_smr_count : ℕ
  pub fr_data : ℕ → ℕ
  pub fr_data_count : ℕ

-- `allocDataNode` for MEM_NOALIGN.
unfoldable pub alloc_data_node : ℕ → HpRec → ℕ × HpRec
alloc_data_node heap r =
    if r.fr_data_count == 0
    then (heap, r)
    else (r.fr_data (r.fr_data_count - 1), record r { fr_data_count = r.fr_data_count - 1 })

-- `none` is the failure of `assert(frListSMR != NULL)`.
pop_smr : HpRec → List ℕ → Option (ℕ × HpRec)
pop_smr r [] = none
pop_smr r (a ∷ rest) = some (a, record r { fr_smr = rest; fr_smr_count = r.fr_smr_count - 1 })

unfoldable pub alloc_smr_node : ℕ → HpRec → Option (ℕ × HpRec)
unfolding pop_smr
alloc_smr_node heap r = if r.fr_smr_count == 0 then some (heap, r) else pop_smr r r.fr_smr

-- `freeData`; the list holds the node if it was deleted.
unfoldable pub free_data : ℕ → HpRec → HpRec × List ℕ
free_data node r =
    if ltb r.fr_data_count max_free_nodes
    then (
      record r {
        fr_data = update r.fr_data r.fr_data_count node;
        fr_data_count = r.fr_data_count + 1;
      },
      [],
    )
    else (r, node ∷ [])

-- `freeSMRNode`
unfoldable pub free_smr_node : ℕ → HpRec → HpRec × List ℕ
free_smr_node a r =
    if ltb r.fr_smr_count max_free_nodes
    then (record r { fr_smr = a ∷ r.fr_smr; fr_smr_count = r.fr_smr_count + 1 }, [])
    else (r, a ∷ [])

-- The first `n` entries of an array, last first.
unfoldable pub entries : (ℕ → ℕ) → ℕ → List ℕ
entries f zero = []
entries f (suc n) = f n ∷ entries f n

-- `cleanFreeList`; the lists hold the SMR nodes and the data nodes that are deleted. The loops run
-- over the counts, and `none` is the read through a NULL pointer when the list is shorter.
take_smr : ℕ → List ℕ → Option (List ℕ)
take_smr zero l = some []
take_smr (suc n) [] = none
take_smr (suc n) (a ∷ l) = elim (take_smr n l) [ none ↦ none | some d ↦ some (a ∷ d) ]

cleaned : HpRec → HpRec
cleaned r = record r { fr_smr = []; fr_smr_count = 0; fr_data_count = 0 }

unfoldable pub clean_free_list : HpRec → Option (HpRec × List ℕ × List ℕ)
unfolding take_smr cleaned entries
clean_free_list r = elim (take_smr r.fr_smr_count r.fr_smr) [
  | none ↦ none
  | some d ↦ some (cleaned r, d, entries r.fr_data r.fr_data_count)
]

set_hp : List ℕ → ℕ → ℕ → List ℕ
set_hp [] i p = []
set_hp (x ∷ xs) zero p = p ∷ xs
set_hp (x ∷ xs) (suc i) p = x ∷ set_hp xs i p

-- `employ(my_hprec, index, pointer)`; `none` is the failure of `assert(index < K)`.
pub employ : ℕ → ℕ → ℕ → HpRec → Option HpRec
unfolding set_hp
employ k index p r = if ltb index k then some (record r { hp = set_hp r.hp index p }) else none

-- `retire(my_hprec, index)`
pub retire : ℕ → HpRec → HpRec
unfolding set_hp
retire index r = record r { hp = set_hp r.hp index 0 }

-- `retire(my_hprec, p)`
pub retire_node : ℕ → HpRec → HpRec
retire_node p r = record r { hp = map (λ x. if x == p then 0 else x) r.hp }

-- `retireHPRec`, which a thread runs when it exits: it leaves the retired list for the next owner.
pub retire_hp_rec : HpRec → Option (HpRec × List ℕ × List ℕ)
retire_hp_rec r = elim (clean_free_list r) [
  | none ↦ none
  | some (q, smrs, nodes) ↦ some (record q { hp = map (λ _. 0) q.hp; active = false }, smrs, nodes)
]
