-- ===== src/Utils/Tests.antt =====
-- utils.c on small strings.
use udprelayd.Base.{◌≡◌, refl, arith, some, ℕ, List, [], ◌∷◌, ◌++◌}
use udprelayd.Utils.{str_index}
use udprelayd.Utils.Index.{array_of, index, str_index-index}

-- The words ab and a.
abbrev words : List (List ℕ)
words = (97 ∷ 98 ∷ []) ∷ (97 ∷ []) ∷ []

str_index-index_example :
    str_index (array_of words) ((97 ∷ []) ++ 0 ∷ 55 ∷ []) ≡ some (index words (97 ∷ []) 0)
str_index-index_example =
    str_index-index words (97 ∷ []) (55 ∷ []) (omega arith, refl, (omega arith, refl, tt)) refl
