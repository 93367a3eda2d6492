-- ===== src/Lookup.antt =====
-- seen_lookup.c: the sequence numbers seen recently. An item of the pool is named by its index;
-- a list of items stands for a circular list (see Clist), and `none` is a fault, a read through
-- `NULL`. The red-black tree of sglib.h is the parameter `Tree`.
pub mod Tree
pub mod Window
pub mod Push
pub mod Runs
pub mod Bounds
pub mod ListTree
mod Compare
mod Tests
use udprelayd.Base.{
  ℕ, zero, suc, ◌+◌, ◌-◌, Bool, true, false, Option, none, some, List, [], ◌∷◌, ◌++◌, ◌==◌,
  if◌then◌else◌,
}
use udprelayd.Base.Int.{ℤ, is_pos, rounds}
use udprelayd.Lookup.Tree.{RbTree}

infixl 5 ◌>>=◌
abbrev pub ◌>>=◌ : {A B : Type 0} → Option A → (A → Option B) → Option B
none >>= f = none
some a >>= f = f a

-- CLIST_ADD_LAST
abbrev pub add_last : List ℕ → ℕ → List ℕ
add_last items item = items ++ item ∷ []

-- `item = list; CLIST_DEL(list, item);`
abbrev pub del_first : List ℕ → Option (ℕ × List ℕ)
del_first [] = none
del_first (item ∷ rest) = some (item, rest)

pub record Lookup (T : Type 0) : Type 0 where
  pub pool_size : ℤ
  -- the member `seq` of each item of the pool
  pub seq_of : ℕ → ℕ
  pub free_items : List ℕ
  pub list : List ℕ
  pub tree : T
  pub items : ℕ

-- `pool[i].seq = s`
unfoldable pub set_seq : (ℕ → ℕ) → ℕ → ℕ → ℕ → ℕ
set_seq f i s j = if j == i then s else f j

-- The pool's loop, with the rounds that are left and the counter `i`.
unfoldable pub fill_pool : ℕ → ℕ → List ℕ → List ℕ
fill_pool zero i free_items = free_items
fill_pool (suc k) i free_items = fill_pool k (suc i) (add_last free_items i)

module _ (t : RbTree) where
  unfoldable pub new_lookup : ℤ → Lookup t.T
  unfolding fill_pool
  new_lookup size = record {
    pool_size = size;
    seq_of = λ i. 0;
    free_items = fill_pool (rounds size) 0 [];
    list = [];
    tree = t.empty;
    items = 0;
  }

  -- The `if` and its `else`: the item that will hold the new number.
  unfoldable pub claim : Lookup t.T → Option (ℕ × Lookup t.T)
  claim lu =
      if is_pos lu.items lu.pool_size
      then (do
        (item, rest) ← del_first lu.list
        some (
          item,
          record lu { list = rest; tree = t.delete lu.seq_of lu.tree item; items = lu.items - 1 },
        ))
      else (do (item, rest) ← del_first lu.free_items; some (item, record lu { free_items = rest }))

  -- The assignments that follow.
  unfoldable pub enter : ℕ → Lookup t.T → ℕ → Lookup t.T
  enter item lu seq =
      let seq_of = set_seq lu.seq_of item seq in
      record lu {
        seq_of = seq_of;
        list = add_last lu.list item;
        tree = t.add seq_of lu.tree item;
        items = lu.items + 1;
      }

  unfoldable pub lookup_push : Lookup t.T → ℕ → Option (Lookup t.T × Bool)
  lookup_push lu seq =
      if t.find_member lu.seq_of lu.tree seq
      then some (lu, false)
      else (do (item, lu) ← claim lu; some (enter item lu seq, true))
