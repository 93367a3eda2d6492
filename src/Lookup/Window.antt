-- ===== src/Lookup/Window.antt =====
-- seen_lookup.c: the numbers that a lookup remembers, oldest first, and the invariant of the
-- pool, the two lists, the tree and the counter.
use udprelayd.Base.{
  ℕ, ◌+◌, ◌≡◌, refl, false, List, [], ◌∷◌, ◌++◌, map, arith, length, has, IsDistinct, ◌==◌, ==_refl,
}
use udprelayd.Base.Int.{pos}
use udprelayd.Lookup.{Lookup, set_seq}
use udprelayd.Lookup.Tree.{RbTree}

abbrev pub window : {T : Type 0} → Lookup T → List ℕ
window lu = map lu.seq_of lu.list

-- A lookup made for `size` numbers.
pub record IsValid (t : RbTree) (size : ℕ) (lu : Lookup t.T) : Type 0 where
  pub pool : lu.pool_size ≡ pos size
  pub holds : t.Holds lu.seq_of lu.tree lu.list
  pub distinct : IsDistinct (window lu)
  pub slots : IsDistinct (lu.list ++ lu.free_items)
  pub count : lu.items ≡ length lu.list
  pub total : length lu.list + length lu.free_items ≡ size

pub length-map : (f : ℕ → ℕ) (xs : List ℕ) → length (map f xs) ≡ length xs
length-map f [] = refl
length-map f (x ∷ xs) = omega (arith, length-map f xs)

pub set_seq-ne : (f : ℕ → ℕ) (i s j : ℕ) → (j == i) ≡ false → set_seq f i s j ≡ f j
unfolding set_seq
set_seq-ne f i s j o = rw o

pub set_seq_self : (f : ℕ → ℕ) (i s : ℕ) → set_seq f i s i ≡ s
unfolding set_seq
set_seq_self f i s = rw (==_refl i)

-- A write to an item that is not in the list leaves the list's numbers alone.
pub map-set_seq :
    (f : ℕ → ℕ) (i s : ℕ) (xs : List ℕ) → has i xs ≡ false → map (set_seq f i s) xs ≡ map f xs
map-set_seq f i s [] o = refl
map-set_seq f i s (x ∷ xs) o =
    rw (map-set_seq f i s xs (ground arith), set_seq-ne f i s x (ground arith))
