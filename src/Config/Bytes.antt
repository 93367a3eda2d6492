-- ===== src/Config/Bytes.antt =====
-- The calls of the C library that config.c makes, on lists of bytes: fgets, strchr, strtok_r and
-- strtol. A line in a buffer is the list of the bytes before its final 0.
use udprelayd.Base.{
  ℕ, zero, suc, ◌+◌, ◌-◌, ◌*◌, ◌%◌, ◌^◌, Bool, true, false, ◌&&◌, ◌||◌, Option, none, some, List,
  [], ◌∷◌, ◌==◌, ltb, leb, if◌then◌else◌,
}
use udprelayd.Base.Int.{ℤ, pos, negsuc}

abbrev pub newline : ℕ
newline = 10

abbrev pub space : ℕ
space = 32

abbrev pub hash : ℕ
hash = 35

-- At most `n` bytes, up to a newline, and the rest of the file.
unfoldable pub fgets : ℕ → List ℕ → List ℕ × List ℕ
fgets zero file = ([], file)
fgets (suc n) [] = ([], [])
fgets (suc n) (b ∷ file) =
    let (line, rest) = fgets n file in if b == newline then (b ∷ [], file) else (b ∷ line, rest)

-- The bytes before the first `c`: the string in a buffer for 0, and for any other byte the
-- string after `eol = strchr(buf, c)` and `*eol = '\0'`.
unfoldable pub before : ℕ → List ℕ → List ℕ
before c [] = []
before c (b ∷ bs) = if b == c then [] else b ∷ before c bs

-- `delim`
unfoldable pub is_delim : ℕ → Bool
is_delim b = (b == space) || ((b == 9) || (b == newline))

unfoldable pub skip_delims : List ℕ → List ℕ
skip_delims [] = []
skip_delims (b ∷ bs) = if is_delim b then skip_delims bs else b ∷ bs

-- The token and what is behind the delimiter that ends it.
unfoldable pub token : List ℕ → List ℕ × List ℕ
token [] = ([], [])
token (b ∷ bs) = let (w, rest) = token bs in if is_delim b then ([], bs) else (b ∷ w, rest)

unfoldable pub token_of : List ℕ → Option (List ℕ × List ℕ)
token_of [] = none
token_of (b ∷ bs) = some (token (b ∷ bs))

-- The next token of the string that `last` points to, and the new `last`.
unfoldable pub strtok_r : List ℕ → Option (List ℕ × List ℕ)
strtok_r s = token_of (skip_delims s)

-- `isspace`
abbrev pub is_space : ℕ → Bool
is_space b = (b == 32) || (leb 9 b && leb b 13)

unfoldable pub skip_spaces : List ℕ → List ℕ
skip_spaces [] = []
skip_spaces (b ∷ bs) = if is_space b then skip_spaces bs else b ∷ bs

-- A minus sign or not, and what follows the sign.
unfoldable pub sign : List ℕ → Bool × List ℕ
sign [] = (false, [])
sign (b ∷ bs) = if b == 45 then (true, bs) else if b == 43 then (false, bs) else (false, b ∷ bs)

-- The value of a digit or a letter, or 36.
unfoldable pub digit : ℕ → ℕ
digit b =
    if leb 48 b && leb b 57
    then b - 48
    else if leb 97 b && leb b 122
    then b - 87
    else if leb 65 b && leb b 90
    then b - 55
    else 36

-- The number before the first byte that is no digit.
unfoldable pub digits : ℕ → ℕ → List ℕ → ℕ
digits base acc [] = acc
digits base acc (b ∷ bs) = if ltb (digit b) base then digits base (acc * base + digit b) bs else acc

-- The base that the prefix tells, and what follows the prefix.
unfoldable pub prefix : List ℕ → ℕ × List ℕ
prefix (a ∷ x ∷ d ∷ bs) =
    if (a == 48) && (((x == 120) || (x == 88)) && ltb (digit d) 16)
    then (16, d ∷ bs)
    else (if a == 48 then 8 else 10, a ∷ x ∷ d ∷ bs)
prefix (a ∷ bs) = (if a == 48 then 8 else 10, a ∷ bs)
prefix [] = (10, [])

-- A `long` has 64 bits, and a number out of its range is its last.
unfoldable pub to_long : Bool → ℕ → ℕ
to_long negative n =
    let last = if negative then 2 ^ 63 else 2 ^ 63 - 1 in if ltb n last then n else last

-- The conversion of a `long`, as its sign and size, to an `int` of 32 bits.
unfoldable pub to_int : Bool → ℕ → ℤ
to_int negative n =
    let m = n % 2 ^ 32 in
    let u = if negative then (2 ^ 32 - m) % 2 ^ 32 else m in
    if ltb u (2 ^ 31) then pos u else negsuc (2 ^ 32 - 1 - u)

-- `(int) strtol(s, NULL, 0)`
unfoldable pub strtol : List ℕ → ℤ
strtol s =
    let (negative, s) = sign (skip_spaces s) in
    let (base, s) = prefix s in to_int negative (to_long negative (digits base 0 s))
