-- ===== src/Utils.antt =====
-- utils.c: the string functions, and a macro of utils.h. A pointer to characters is the list of the bytes from there on,
-- and to read behind its end is a fault, `none`.
pub mod Index
pub mod Append
pub mod Printf
mod Tests
use udprelayd.Base.{
  ℕ, zero, suc, ◌+◌, Bool, not, ◌&&◌, Option, none, some, List, [], ◌∷◌, ◌++◌, ◌==◌, if◌then◌else◌,
  ltb, length, take, drop, ◌-◌,
}
use udprelayd.Base.Int.{ℤ, pos, negsuc}

-- `MAX(a, b)` of utils.h
unfoldable pub max : ℕ → ℕ → ℕ
max a b = if ltb b a then a else b

infixl 5 ◌>>=◌
abbrev pub ◌>>=◌ : {A B : Type 0} → Option A → (A → Option B) → Option B
none >>= f = none
some a >>= f = f a

unfoldable pub strlen : List ℕ → Option ℕ
strlen [] = none
strlen (b ∷ bs) = if b == 0 then some 0 else (do n ← strlen bs; some (suc n))

-- The bytes of the new block.
unfoldable pub xstrdup : List ℕ → Option (List ℕ)
xstrdup str = do n ← strlen str; some (take (suc n) str)

-- `memcpy(dst + len, s, l + 1)` into a block that has been made just long enough, and `len + l`.
unfoldable pub add_string : List ℕ × ℕ → List ℕ → Option (List ℕ × ℕ)
add_string (dst, len) s = do l ← strlen s; some (take len dst ++ take (suc l) s, len + l)

unfoldable pub add_strings : List ℕ × ℕ → List (List ℕ) → Option (List ℕ × ℕ)
add_strings acc [] = some acc
add_strings acc (s ∷ ss) = do acc ← add_string acc s; add_strings acc ss

-- The arguments before the final `NULL`.
unfoldable pub strconcat : List ℕ → List (List ℕ) → Option (List ℕ)
strconcat src args = do
  len ← strlen src
  (dst, len) ← add_strings (take (suc len) src, len) args
  some dst

-- `vsnprintf(buf, size, format, ap)`: `output` is what the format gives in full.
unfoldable pub vsnprintf : ℕ → List ℕ → List ℕ → List ℕ
vsnprintf size buf output =
    let written = take (size - 1) output ++ 0 ∷ [] in written ++ drop (length written) buf

-- `buf[n] = '\0'`
unfoldable pub end_at : ℕ → List ℕ → List ℕ
end_at n buf = take n buf ++ 0 ∷ drop (suc n) buf

abbrev pub max_str_len : ℕ
max_str_len = 4096

-- `buf` is what the buffer holds before the call.
unfoldable pub print_into : ℕ → List ℕ → List ℕ → Option (List ℕ)
print_into size buf output = xstrdup (end_at (size - 1) (vsnprintf (size - 1) buf output))

unfoldable pub strdup_printf : List ℕ → List ℕ → Option (List ℕ)
strdup_printf buf output = print_into max_str_len buf output

unfoldable pub dst_len : Option (List ℕ) → Option ℕ
dst_len none = some 0
dst_len (some dst) = strlen dst

abbrev pub block : Option (List ℕ) → List ℕ
block none = []
block (some dst) = dst

unfoldable pub strappend : Option (List ℕ) → List ℕ → Option (List ℕ)
strappend dst src = do
  src_len ← strlen src
  len ← dst_len dst
  some (take len (block dst) ++ take (suc src_len) src)

-- `while(*array && *array == *c) { array++; c++; }`
unfoldable pub match_run : List ℕ → List ℕ → Option (List ℕ × List ℕ)
match_run (a ∷ array) (c ∷ cs) =
    if not (a == 0) && (a == c) then match_run array cs else some (a ∷ array, c ∷ cs)
match_run _ _ = none

-- `*array == *c`
unfoldable pub same_byte : List ℕ → List ℕ → Option Bool
same_byte (a ∷ array) (c ∷ cs) = some (a == c)
same_byte _ _ = none

-- `while(*(array++));`
unfoldable pub skip : List ℕ → Option (List ℕ)
skip [] = none
skip (a ∷ array) = if a == 0 then some array else skip array

-- The outer loop; `none` is also what it returns without enough fuel.
unfoldable pub scan : ℕ → List ℕ → List ℕ → ℕ → Option ℤ
scan zero array str i = none
scan (suc k) [] str i = none
scan (suc k) (a ∷ array) str i = if a == 0 then some (negsuc 0) else (do
  (rest, c) ← match_run (a ∷ array) str
  same ← same_byte rest c
  if same then some (pos i) else (do next ← skip rest; scan k next str (i + 1)))

unfoldable pub str_index : List ℕ → List ℕ → Option ℤ
str_index array str = scan (length array) array str 0
