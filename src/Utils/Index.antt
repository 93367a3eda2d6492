-- ===== src/Utils/Index.antt =====
-- utils.c: str_index is the search of a word in the list of the words that the array holds.
use udprelayd.Base.{
  ℕ, zero, suc, ◌+◌, ◌≤◌, ◌<◌, ◌≡◌, refl, ◌∙◌, Bool, true, false, ◌&&◌, some, List, [], ◌∷◌, ◌++◌,
  ◌==◌, if◌then◌else◌, length, has, arith, Bool-cases, inl, inr, length-append,
}
use udprelayd.Base.Int.{ℤ, pos, negsuc}
use udprelayd.Utils.{match_run, same_byte, skip, scan, str_index, ◌>>=◌}

-- The two words are equal.
unfoldable pub same : List ℕ → List ℕ → Bool
same [] [] = true
same [] (y ∷ ys) = false
same (x ∷ xs) [] = false
same (x ∷ xs) (y ∷ ys) = (x == y) && same xs ys

-- The position of the word, counted from `i`, or -1.
unfoldable pub index : List (List ℕ) → List ℕ → ℕ → ℤ
index [] s i = negsuc 0
index (w ∷ ws) s i = if same w s then pos i else index ws s (i + 1)

-- The array that holds the words.
abbrev pub array_of : List (List ℕ) → List ℕ
array_of [] = 0 ∷ []
array_of (w ∷ ws) = w ++ 0 ∷ array_of ws

-- No word is empty or has a 0 in it.
abbrev pub AllWords : List (List ℕ) → Type 0
AllWords [] = Unit
AllWords (w ∷ ws) = (0 < length w) × (has 0 w ≡ false) × AllWords ws

pub no-nul : (x : ℕ) (w : List ℕ) → has 0 (x ∷ w) ≡ false → ((x == 0) ≡ false) × (has 0 w ≡ false)
no-nul x w h = (ground arith, ground arith)

skip-word : (w rest : List ℕ) → has 0 w ≡ false → skip (w ++ 0 ∷ rest) ≡ some rest
unfolding skip
skip-word [] rest h = refl
skip-word (x ∷ w) rest h = let (not_nul, tail) = no-nul x w h in rw (not_nul, skip-word w rest tail)

-- Where the comparison of a word of the array with a string stops, the two next bytes are the same
-- only if the words are, and the rest of the array is behind the word.
record Compared (w s rest t : List ℕ) : Type 0 where
  array : List ℕ
  str : List ℕ
  stops : match_run (w ++ 0 ∷ rest) (s ++ 0 ∷ t) ≡ some (array, str)
  tells : same_byte array str ≡ some (same w s)
  skips : skip array ≡ some rest

compare_words : (w s rest t : List ℕ) → has 0 w ≡ false → has 0 s ≡ false → Compared w s rest t
unfolding match_run same_byte skip same
compare_words [] [] rest t hw hs = record {
  array = 0 ∷ rest;
  str = 0 ∷ t;
  stops = refl;
  tells = refl;
  skips = refl;
}
compare_words [] (y ∷ s) rest t hw hs = record {
  array = 0 ∷ rest;
  str = y ∷ s ++ 0 ∷ t;
  stops = refl;
  tells = ground arith;
  skips = refl;
}
compare_words (x ∷ w) [] rest t hw hs =
    let (not_nul, tail) = no-nul x w hw in
    record {
      array = x ∷ w ++ 0 ∷ rest;
      str = 0 ∷ t;
      stops = rw (not_nul);
      tells = rw (not_nul);
      skips = skip-word (x ∷ w) rest hw;
    }
compare_words (x ∷ w) (y ∷ s) rest t hw hs =
    let (not_nul, w_tail) = no-nul x w hw in
    let (_, s_tail) = no-nul y s hs in
    elim (Bool-cases (x == y)) [
      | inl e ↦
          let c = compare_words w s rest t w_tail s_tail in
          record {
            array = c.array;
            str = c.str;
            stops = rw (not_nul, e, c.stops);
            tells = rw (e, c.tells);
            skips = c.skips;
          }
      | inr ne ↦ record {
        array = x ∷ w ++ 0 ∷ rest;
        str = y ∷ s ++ 0 ∷ t;
        stops = rw (not_nul, ne);
        tells = rw ne;
        skips = skip-word (x ∷ w) rest hw;
      }
    ]

scan-step :
    (k : ℕ) (w rest s t : List ℕ) (i : ℕ)
    → 0 < length w
    → has 0 w ≡ false
    → has 0 s ≡ false
    → scan (suc k) (w ++ 0 ∷ rest) (s ++ 0 ∷ t) i
      ≡ (if same w s then some (pos i) else scan k rest (s ++ 0 ∷ t) (i + 1))
unfolding scan
scan-step k [] rest s t i some_bytes hw hs = absurd (omega arith)
scan-step k (x ∷ w) rest s t i some_bytes hw hs =
    let c = compare_words (x ∷ w) s rest t hw hs in
    rw ((no-nul x w hw).0, ◌>>=◌) (rw (c.stops, ◌>>=◌) (rw (c.tells, c.skips, ◌>>=◌)))

scan-end : (k : ℕ) (str : List ℕ) (i : ℕ) → scan (suc k) (0 ∷ []) str i ≡ some (negsuc 0)
unfolding scan
scan-end k str i = refl

scan-index :
    (k : ℕ) (ws : List (List ℕ)) (s t : List ℕ) (i : ℕ)
    → AllWords ws
    → has 0 s ≡ false
    → length (array_of ws) ≤ k
    → scan k (array_of ws) (s ++ 0 ∷ t) i ≡ some (index ws s i)
unfolding index
scan-index zero [] s t i h hs fuel = absurd (omega arith)
scan-index zero (w ∷ ws) s t i h hs fuel = absurd (omega (arith, length-append w (0 ∷ array_of ws)))
scan-index (suc k) [] s t i h hs fuel = scan-end k (s ++ 0 ∷ t) i
scan-index (suc k) (w ∷ ws) s t i h hs fuel =
    scan-step k w (array_of ws) s t i h.0 h.1 hs ∙ elim (Bool-cases (same w s)) [
      | inl e ↦ rw e
      | inr ne ↦ rw ne (
          scan-index k ws s t (i + 1) h.2 hs
            (omega (arith, length-append w (0 ∷ array_of ws), h.0)))
    ]

-- In the array of a list of words that are not empty, str_index finds the string's first position
-- in the list, or -1, and reads nothing outside the two; no word and no string has a 0 in it.
pub str_index-index :
    (ws : List (List ℕ)) (s t : List ℕ)
    → AllWords ws
    → has 0 s ≡ false
    → str_index (array_of ws) (s ++ 0 ∷ t) ≡ some (index ws s 0)
unfolding str_index
str_index-index ws s t h hs = scan-index (length (array_of ws)) ws s t 0 h hs (omega arith)
