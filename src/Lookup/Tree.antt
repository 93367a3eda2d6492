-- ===== src/Lookup/Tree.antt =====
-- What seen_lookup.c relies on of the red-black tree that sglib.h generates for `lookup_item_t`.
-- A tree links items of the pool and compares them by their members `seq`, which it reads
-- through the items; an operation takes these members as a function.
use udprelayd.Base.{ℕ, ◌≡◌, Bool, true, false, List, [], ◌∷◌, ◌++◌, map, has}

pub record RbTree : Type 1 where
  pub T : Type 0
  -- `NULL`
  pub empty : T
  pub find_member : (ℕ → ℕ) → T → ℕ → Bool
  pub add : (ℕ → ℕ) → T → ℕ → T
  pub delete : (ℕ → ℕ) → T → ℕ → T
  -- The tree is in order and holds these items, in the order in which they were added.
  pub Holds : (ℕ → ℕ) → T → List ℕ → Type 0
  pub empty-Holds : (seq_of : ℕ → ℕ) → Holds seq_of empty []
  pub find_member-Holds :
      (seq_of : ℕ → ℕ) (t : T) (items : List ℕ) (seq : ℕ)
      → Holds seq_of t items
      → find_member seq_of t seq ≡ has seq (map seq_of items)
  pub add-Holds :
      (seq_of : ℕ → ℕ) (t : T) (items : List ℕ) (item : ℕ)
      → Holds seq_of t items
      → has (seq_of item) (map seq_of items) ≡ false
      → Holds seq_of (add seq_of t item) (items ++ item ∷ [])
  pub delete-Holds :
      (seq_of : ℕ → ℕ) (t : T) (before : List ℕ) (item : ℕ) (after : List ℕ)
      → Holds seq_of t (before ++ item ∷ after)
      → Holds seq_of (delete seq_of t item) (before ++ after)
  -- The tree reads the members of its own items only.
  pub Holds-frame :
      (seq_of seq_of' : ℕ → ℕ) (t : T) (items : List ℕ)
      → ((item : ℕ) → has item items ≡ true → seq_of' item ≡ seq_of item)
      → Holds seq_of t items
      → Holds seq_of' t items
