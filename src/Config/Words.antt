-- ===== src/Config/Words.antt =====
-- config.c: a line of the configuration by its words. A line is its words, each with a space
-- behind it, and then a newline or a comment.
use udprelayd.Base.{
  ℕ, ◌<◌, ◌≡◌, refl, ◌∙◌, ap, Bool, true, false, not, ◌&&◌, none, some, List, [], ◌∷◌, ◌++◌, ◌==◌,
  length, has, arith, append_assoc,
}
use udprelayd.Utils.{◌>>=◌}
use udprelayd.Utils.Index.{index, AllWords, str_index-index}
use udprelayd.Config.Bytes.{strtok_r, token, token_of, skip_delims, is_delim, hash, space, newline}
use udprelayd.Config.{lexemes, to_opt, lexeme}

-- A byte that can stand in a word.
abbrev pub plain : ℕ → Bool
plain b = not (is_delim b) && (not (b == hash) && not (b == 0))

abbrev pub all_plain : List ℕ → Bool
all_plain [] = true
all_plain (b ∷ bs) = plain b && all_plain bs

-- The words are not empty and have plain bytes only.
abbrev pub AllPlain : List (List ℕ) → Type 0
AllPlain [] = Unit
AllPlain (w ∷ ws) = (0 < length w) × (all_plain w ≡ true) × AllPlain ws

abbrev pub body : List (List ℕ) → List ℕ
body [] = []
body (w ∷ ws) = w ++ space ∷ body ws

pub record Plain (b : ℕ) (w : List ℕ) : Type 0 where
  pub no_delim : is_delim b ≡ false
  pub no_hash : (b == hash) ≡ false
  pub no_nul : (b == 0) ≡ false
  pub tail_plain : all_plain w ≡ true

pub Plain-parts : (b : ℕ) (w : List ℕ) → all_plain (b ∷ w) ≡ true → Plain b w
unfolding is_delim
Plain-parts b w h = record {
  no_delim = ground arith;
  no_hash = ground arith;
  no_nul = ground arith;
  tail_plain = ground arith;
}

delim_space : is_delim space ≡ true
unfolding is_delim
delim_space = refl

token-word : (w rest : List ℕ) → all_plain w ≡ true → token (w ++ space ∷ rest) ≡ (w, rest)
unfolding token
token-word [] rest h = rw delim_space
token-word (b ∷ w) rest h =
    let p = Plain-parts b w h in rw (p.no_delim, token-word w rest p.tail_plain)

strtok_r-word :
    (w rest : List ℕ)
    → 0 < length w
    → all_plain w ≡ true
    → strtok_r (w ++ space ∷ rest) ≡ some (w, rest)
unfolding strtok_r skip_delims token_of
strtok_r-word [] rest some_bytes h = absurd (omega arith)
strtok_r-word (b ∷ w) rest some_bytes h =
    rw ((Plain-parts b w h).no_delim) (ap some (token-word (b ∷ w) rest h))

pub no-nul_word : (w : List ℕ) → all_plain w ≡ true → has 0 w ≡ false
no-nul_word [] h = refl
no-nul_word (b ∷ w) h =
    let p = Plain-parts b w h in ground (arith, p.no_nul, no-nul_word w p.tail_plain)

pub lexemes-AllWords : AllWords lexemes
lexemes-AllWords = (
  omega arith,
  refl,
  (
    omega arith,
    refl,
    (omega arith, refl, (omega arith, refl, (omega arith, refl, (omega arith, refl, tt)))),
  ),
)

pub lexeme-index : (w : List ℕ) → all_plain w ≡ true → lexeme w ≡ some (to_opt (index lexemes w 0))
unfolding lexeme
lexeme-index w h = rw (str_index-index lexemes w [] lexemes-AllWords (no-nul_word w h), ◌>>=◌)

-- What can end a line after its words: nothing, where a comment was, or the newline.
abbrev pub line_end : Bool → List ℕ
line_end true = []
line_end false = newline ∷ []

pub strtok_r-end : (commented : Bool) → strtok_r (line_end commented) ≡ none
unfolding strtok_r skip_delims token_of is_delim
strtok_r-end true = refl
strtok_r-end false = refl

pub strtok_r-body :
    (w : List ℕ) (ws : List (List ℕ)) (rest : List ℕ)
    → 0 < length w
    → all_plain w ≡ true
    → strtok_r (body (w ∷ ws) ++ rest) ≡ some (w, body ws ++ rest)
strtok_r-body w ws rest some_bytes h =
    ap strtok_r (append_assoc w (space ∷ body ws) rest)
    ∙ strtok_r-word w (body ws ++ rest) some_bytes h
