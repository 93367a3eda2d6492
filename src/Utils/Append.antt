-- ===== src/Utils/Append.antt =====
-- utils.c: xstrdup, strconcat and strappend on strings, which end at their first 0.
use udprelayd.Base.{
  ℕ, suc, ◌≡◌, refl, false, some, List, [], ◌∷◌, ◌++◌, has, length, take, length-append,
  append_assoc, append-nil, take-length-append, ap,
}
use udprelayd.Utils.{strlen, xstrdup, add_string, add_strings, strconcat, strappend, dst_len, ◌>>=◌}
use udprelayd.Utils.Index.{no-nul}

-- The bytes of a string in memory, with others behind it.
abbrev pub text : List ℕ → List ℕ → List ℕ
text s t = s ++ 0 ∷ t

pub strlen-text : (s t : List ℕ) → has 0 s ≡ false → strlen (text s t) ≡ some (length s)
unfolding strlen
strlen-text [] t h = refl
strlen-text (x ∷ s) t h = let (not_nul, tail) = no-nul x s h in rw (not_nul, strlen-text s t tail)

take-text : (s t : List ℕ) → take (suc (length s)) (text s t) ≡ text s []
take-text [] t = refl
take-text (x ∷ s) t = ap (λ l. x ∷ l) (take-text s t)

pub xstrdup-text : (s t : List ℕ) → has 0 s ≡ false → xstrdup (text s t) ≡ some (text s [])
unfolding xstrdup
xstrdup-text s t h = rw (strlen-text s t h, ◌>>=◌) (rw (take-text s t))

-- The arguments of strconcat: strings, each with what lies behind it in memory.
abbrev pub texts : List (List ℕ × List ℕ) → List (List ℕ)
texts [] = []
texts ((s, t) ∷ ss) = text s t ∷ texts ss

abbrev pub joined : List (List ℕ × List ℕ) → List ℕ
joined [] = []
joined ((s, t) ∷ ss) = s ++ joined ss

abbrev pub AllStrings : List (List ℕ × List ℕ) → Type 0
AllStrings [] = Unit
AllStrings ((s, t) ∷ ss) = (has 0 s ≡ false) × AllStrings ss

add_string-text :
    (d s t : List ℕ)
    → has 0 s ≡ false
    → add_string (text d [], length d) (text s t) ≡ some (text (d ++ s) [], length (d ++ s))
unfolding add_string
add_string-text d s t h =
    rw (strlen-text s t h, ◌>>=◌)
      (rw (
        take-length-append d (0 ∷ []),
        take-text s t,
        append_assoc d s (0 ∷ []),
        length-append d s,
      ))

add_strings-text :
    (d : List ℕ) (ss : List (List ℕ × List ℕ))
    → AllStrings ss
    → add_strings (text d [], length d) (texts ss)
      ≡ some (text (d ++ joined ss) [], length (d ++ joined ss))
unfolding add_strings
add_strings-text d [] h = rw (append-nil d)
add_strings-text d ((s, t) ∷ ss) h =
    rw (add_string-text d s t h.0, ◌>>=◌)
      (rw (add_strings-text (d ++ s) ss h.1) (rw (append_assoc d s (joined ss))))

-- Whatever lies behind its arguments in memory, strconcat reads nothing outside them and returns a
-- block that holds their concatenation and its final 0, and nothing else.
pub strconcat-joined :
    (s t : List ℕ) (ss : List (List ℕ × List ℕ))
    → has 0 s ≡ false
    → AllStrings ss
    → strconcat (text s t) (texts ss) ≡ some (text (s ++ joined ss) [])
unfolding strconcat
strconcat-joined s t ss h hs =
    rw (strlen-text s t h, ◌>>=◌) (rw (take-text s t) (rw (add_strings-text s ss hs, ◌>>=◌) refl))

pub strappend-text :
    (d s t : List ℕ)
    → has 0 d ≡ false
    → has 0 s ≡ false
    → strappend (some (text d [])) (text s t) ≡ some (text (d ++ s) [])
unfolding strappend dst_len
strappend-text d s t hd h =
    rw (strlen-text s t h, ◌>>=◌)
      (rw (strlen-text d [] hd, ◌>>=◌)
        (rw (take-length-append d (0 ∷ []), take-text s t, append_assoc d s (0 ∷ []))))
