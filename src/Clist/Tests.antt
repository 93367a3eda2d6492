-- ===== src/Clist/Tests.antt =====
-- clist.h on a list of three items, and the theorems there.
use udprelayd.Base.{true, has, ◌≡◌, refl, Bool, ◌||◌, some, none, [], ◌∷◌, arith, ◌==◌}
use udprelayd.Clist.{Ptr, node, Heap, write, add_after, add_last, del, foreach, free, drain}
use udprelayd.Clist.Ring.{IsRing, SameOutside}
use udprelayd.Clist.Insert.{add_last-IsRing}
use udprelayd.Clist.Delete.{del-IsRing}
use udprelayd.Clist.Foreach.{disable, Swept, foreach-Swept}
use udprelayd.Clist.Drain.{free-Releases, drain-frees}
use udprelayd.Clist.AddAfter.{add_after-unlinked}

-- 1, 2 and 3 in a ring, and 4 allocated beside it.
abbrev heap : Heap
heap =
    write
      (write (write (write (λ a. none) 1 (some (node 3 2))) 2 (some (node 1 3))) 3
        (some (node 2 1)))
      4 (some (node 0 0))

heap-IsRing : IsRing heap (1 ∷ 2 ∷ 3 ∷ [])
unfolding write
heap-IsRing = record {
  links = (refl, omega arith, (refl, omega arith, (refl, omega arith, tt)));
  distinct = (refl, (refl, (refl, tt)));
}

four : heap 4 ≡ some (node 0 0)
unfolding write
four = refl

add_last-IsRing_example :
    (g : Heap) × (add_last 1 4 heap ≡ some (1, g))
    × IsRing g (1 ∷ 2 ∷ 3 ∷ 4 ∷ [])
    × SameOutside (1 ∷ 2 ∷ 3 ∷ 4 ∷ []) heap g
add_last-IsRing_example =
    add_last-IsRing heap (1 ∷ 2 ∷ 3 ∷ []) 4 (node 0 0) heap-IsRing (omega arith) four refl

del-IsRing_example :
    (g : Heap) × (del 1 2 heap ≡ some (1, g))
    × IsRing g (1 ∷ 3 ∷ [])
    × SameOutside (1 ∷ 3 ∷ []) heap g
del-IsRing_example = del-IsRing heap (1 ∷ []) 2 (3 ∷ []) heap-IsRing

abbrev odd_failed : Ptr → Bool
odd_failed p = (p == 1) || (p == 3)

foreach-Swept_example :
    (g : Heap) × (foreach 4 (disable odd_failed) 1 heap ≡ some ((1 ∷ 2 ∷ 3 ∷ [], 2), g))
    × Swept odd_failed heap [] (1 ∷ 2 ∷ 3 ∷ []) g
foreach-Swept_example = foreach-Swept odd_failed 4 heap (1 ∷ 2 ∷ 3 ∷ []) heap-IsRing (omega arith)

add_after-unlinked_example :
    (g : Heap) × (add_after 1 4 heap ≡ some (tt, g))
    × (g 4 ≡ some (node 4 2))
    × (¬ IsRing g (1 ∷ 4 ∷ 2 ∷ 3 ∷ []))
add_after-unlinked_example =
    add_after-unlinked heap 1 (2 ∷ 3 ∷ []) 4 (node 0 0) heap-IsRing (omega arith) four refl

drain-frees_example :
    (g : Heap) × (drain 4 free 1 heap ≡ some (0, g))
    × ((a : Ptr) → has a (1 ∷ 2 ∷ 3 ∷ []) ≡ true → g a ≡ none)
    × SameOutside (1 ∷ 2 ∷ 3 ∷ []) heap g
drain-frees_example =
    drain-frees free free-Releases heap (1 ∷ 2 ∷ 3 ∷ []) 4 heap-IsRing (omega arith)
