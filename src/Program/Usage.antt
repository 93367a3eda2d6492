-- ===== src/Program/Usage.antt =====
-- usage of udprelayd.c: the text that it prints, with the C library's basename.
use udprelayd.Base.{
  ℕ, ◌<◌, ◌≡◌, refl, Bool, true, false, ◌&&◌, Option, some, List, [], ◌∷◌, ◌++◌, ◌==◌, arith, has,
  length, if◌then◌else◌,
}
use udprelayd.Utils.{xstrdup, ◌>>=◌}
use udprelayd.Utils.Append.{text, xstrdup-text}

abbrev slash : ℕ
slash = 47

abbrev none_left : List ℕ → Bool
none_left [] = true
none_left (b ∷ bs) = false

-- The bytes before the end of a string.
unfoldable contents : List ℕ → List ℕ
contents [] = []
contents (b ∷ bs) = let rest = contents bs in if b == 0 then [] else b ∷ rest

-- Without the slashes at the end.
unfoldable strip : List ℕ → List ℕ
strip [] = []
strip (b ∷ bs) = let rest = strip bs in if none_left rest && (b == slash) then [] else b ∷ rest

-- What follows the last slash.
unfoldable last_part : List ℕ → List ℕ
last_part [] = []
last_part (b ∷ bs) =
    let rest = last_part bs in if has slash bs then rest else if b == slash then bs else b ∷ bs

unfoldable basename : List ℕ → List ℕ
basename path =
    if none_left path
    then 46 ∷ []
    else if none_left (strip path)
    then slash ∷ []
    else last_part (strip path)

-- `Usage: `
abbrev before_name : List ℕ
before_name = 85 ∷ 115 ∷ 97 ∷ 103 ∷ 101 ∷ 58 ∷ 32 ∷ []

-- ` [-d|--detach] [-p|--pidfile pidfile] config` and a newline
abbrev after_name : List ℕ
after_name =
    32 ∷ 91 ∷ 45 ∷ 100 ∷ 124 ∷ 45 ∷ 45 ∷ 100 ∷ 101 ∷ 116 ∷ 97 ∷ 99 ∷ 104 ∷ 93 ∷ 32 ∷ 91 ∷ 45 ∷ 112
    ∷ 124 ∷ 45 ∷ 45 ∷ 112 ∷ 105 ∷ 100 ∷ 102 ∷ 105 ∷ 108 ∷ 101 ∷ 32 ∷ 112 ∷ 105 ∷ 100 ∷ 102 ∷ 105
    ∷ 108 ∷ 101 ∷ 93 ∷ 32 ∷ 99 ∷ 111 ∷ 110 ∷ 102 ∷ 105 ∷ 103 ∷ 10 ∷ []

-- The text printed. basename may write into the copy, which is freed.
unfoldable usage : List ℕ → Option (List ℕ)
usage argv0 = do tmp ← xstrdup argv0; some (before_name ++ basename (contents tmp) ++ after_name)

contents-text : (s t : List ℕ) → has 0 s ≡ false → contents (text s t) ≡ s
unfolding contents
contents-text [] t h = refl
contents-text (x ∷ s) t h = ground (arith, contents-text s t)

strip-name : (name : List ℕ) → has slash name ≡ false → strip name ≡ name
unfolding strip
strip-name [] h = refl
strip-name (x ∷ name) h = ground (arith, strip-name name)

none_left-behind : (dir name : List ℕ) → none_left (dir ++ slash ∷ name) ≡ false
none_left-behind [] name = refl
none_left-behind (d ∷ dir) name = refl

strip-behind :
    (dir name : List ℕ)
    → has slash name ≡ false
    → 0 < length name
    → strip (dir ++ slash ∷ name) ≡ dir ++ slash ∷ name
unfolding strip
strip-behind [] [] h some_name = absurd (omega arith)
strip-behind [] (x ∷ name) h some_name = rw (strip-name (x ∷ name) h) refl
strip-behind (d ∷ dir) name h some_name =
    rw (strip-behind dir name h some_name) (rw (none_left-behind dir name) refl)

last_part-behind :
    (dir name : List ℕ) → has slash name ≡ false → last_part (dir ++ slash ∷ name) ≡ name
unfolding last_part
last_part-behind [] name h = rw h refl
last_part-behind (d ∷ dir) name h = rw (within dir) (last_part-behind dir name h)
  where
    within : (dir : List ℕ) → has slash (dir ++ slash ∷ name) ≡ true
    within [] = refl
    within (d ∷ dir) = ground (arith, within dir)

basename-behind :
    (dir name : List ℕ)
    → has slash name ≡ false
    → 0 < length name
    → basename (dir ++ slash ∷ name) ≡ name
unfolding basename
basename-behind dir name h some_name =
    rw (strip-behind dir name h some_name)
      (rw (none_left-behind dir name) (last_part-behind dir name h))

-- usage names the program by the last part of its path, and reads nothing outside the path.
usage-prints :
    (dir name rest : List ℕ)
    → has 0 (dir ++ slash ∷ name) ≡ false
    → has slash name ≡ false
    → 0 < length name
    → usage (text (dir ++ slash ∷ name) rest) ≡ some (before_name ++ name ++ after_name)
unfolding usage
usage-prints dir name rest string h some_name =
    rw (xstrdup-text (dir ++ slash ∷ name) rest string, ◌>>=◌)
      (rw (contents-text (dir ++ slash ∷ name) [] string)
        (rw (basename-behind dir name h some_name) refl))
