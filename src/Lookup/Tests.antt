-- ===== src/Lookup/Tests.antt =====
-- seen_lookup.c: runs on small inputs, and the theorems at such inputs.
use udprelayd.Base.{ℕ, ◌≡◌, refl, true, false, some, none, List, [], ◌∷◌, arith, last_n}
use udprelayd.Base.Int.{pos, negsuc}
use udprelayd.Lookup.{Lookup, new_lookup, lookup_push}
use udprelayd.Lookup.ListTree.{list_tree}
use udprelayd.Lookup.Window.{window, IsValid}
use udprelayd.Lookup.Runs.{push_all, dedup, push_all-dedup}
use udprelayd.Lookup.Bounds.{lookup_push-fault, push_all-firsts, firsts}

abbrev numbers : List ℕ
numbers = 7 ∷ 8 ∷ 7 ∷ 9 ∷ 7 ∷ []

-- With room for two, the third 7 is taken again: 8 and 9 have pushed the first one out.
numbers_answers : (dedup 2 [] numbers).0 ≡ true ∷ true ∷ false ∷ true ∷ true ∷ []
unfolding dedup last_n
numbers_answers = refl

push_all-dedup_example :
    (lu : Lookup (List ℕ)) × (push_all list_tree (new_lookup list_tree (pos 2)) numbers
      ≡ some (lu, (dedup 2 [] numbers).0))
    × IsValid list_tree 2 lu
    × (window lu ≡ last_n 2 (dedup 2 [] numbers).1)
push_all-dedup_example = push_all-dedup list_tree 2 (omega arith) numbers

lookup_push-fault_example : lookup_push list_tree (new_lookup list_tree (negsuc 4)) 5 ≡ none
lookup_push-fault_example = lookup_push-fault list_tree (negsuc 4) 5 refl

-- Room for four numbers, and a run in which three come again.
push_all-firsts_example :
    (lu : Lookup (List ℕ)) × (push_all list_tree
        (new_lookup list_tree (pos 4))
        (3 ∷ 0 ∷ 3 ∷ 1 ∷ 2 ∷ 0 ∷ 3 ∷ [])
      ≡ some (lu, firsts [] (3 ∷ 0 ∷ 3 ∷ 1 ∷ 2 ∷ 0 ∷ 3 ∷ [])))
push_all-firsts_example =
    push_all-firsts list_tree 4 4 (3 ∷ 0 ∷ 3 ∷ 1 ∷ 2 ∷ 0 ∷ 3 ∷ []) (omega arith) (omega arith)
      (omega arith)

repeated : firsts [] (3 ∷ 0 ∷ 3 ∷ []) ≡ true ∷ true ∷ false ∷ []
unfolding firsts
repeated = refl
