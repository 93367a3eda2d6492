-- ===== src/Config/Lines.antt =====
-- config.c: a whole file by the words of its lines. A line is its words and perhaps a comment.
use udprelayd.Base.{
  ℕ, suc, ◌-◌, ◌≤◌, ◌<◌, ◌≡◌, refl, ◌∙◌, ap, Bool, true, false, Option, none, some, List, [], ◌∷◌,
  ◌++◌, ◌==◌, length, has, has-append, arith, length-append,
}
use udprelayd.Utils.{◌>>=◌}
use udprelayd.Utils.Index.{index}
use udprelayd.Config.Bytes.{before, strtok_r, strtol, hash, space, newline}
use udprelayd.Config.{
  Config, Opt, opt_listen, opt_forward, opt_relay, opt_local, opt_remote, opt_track, opt_none,
  no_addr, lexemes, to_opt, add_relay, set_arg, directive, parse_line, readbuf_sz,
}
use udprelayd.Config.Args.{relay_meaning, relay_args-words}
use udprelayd.Config.Words.{
  no-nul_word, AllPlain, all_plain, Plain-parts, body, strtok_r-body, strtok_r-end, line_end,
  lexeme-index,
}

-- The specification: a relay line counts if it has both addresses.
unfoldable pub with_relay : Config → Option (List ℕ) → Option (List ℕ) → Config
with_relay conf (some l) (some r) = record conf {
  relay_config = conf.relay_config ++ record { local_addr = some l; remote_addr = some r } ∷ [];
}
with_relay conf _ _ = conf

-- What one directive says.
unfoldable pub directive_meaning : Opt → List (List ℕ) → Config → Config
directive_meaning opt_relay ws conf =
    let rc = relay_meaning ws no_addr in with_relay conf rc.local_addr rc.remote_addr
directive_meaning opt_listen (w ∷ ws) conf = record conf {
  outward = record conf.outward { local_addr = some w };
}
directive_meaning opt_forward (w ∷ ws) conf = record conf {
  outward = record conf.outward { remote_addr = some w };
}
directive_meaning opt_track (w ∷ ws) conf = record conf { track = strtol w }
directive_meaning _ _ conf = conf

unfoldable pub meaning : List (List ℕ) → Config → Config
meaning [] conf = conf
meaning (w ∷ ws) conf = directive_meaning (to_opt (index lexemes w 0)) ws conf

pub record Line : Type 0 where
  pub words : List (List ℕ)
  pub comment : Option (List ℕ)

abbrev pub comment_text : Option (List ℕ) → List ℕ
comment_text none = []
comment_text (some c) = hash ∷ c

abbrev pub file_text : List Line → List ℕ
file_text [] = []
file_text (l ∷ ls) = (body l.words ++ (comment_text l.comment ++ newline ∷ [])) ++ file_text ls

unfoldable pub file_meaning : List Line → Config → Config
file_meaning [] conf = conf
file_meaning (l ∷ ls) conf = file_meaning ls (meaning l.words conf)

-- A line that fits the buffer, and whose comment does not go on in the next line.
pub record IsLine (l : Line) : Type 0 where
  pub plain : AllPlain l.words
  pub one_line : has newline (comment_text l.comment) ≡ false
  pub fits : length (body l.words ++ comment_text l.comment) < readbuf_sz - 1

abbrev pub AllLines : List Line → Type 0
AllLines [] = Unit
AllLines (l ∷ ls) = IsLine l × AllLines ls

pub length-body : (ws : List (List ℕ)) (rest : List ℕ) → length ws ≤ length (body ws ++ rest)
length-body [] rest = omega arith
length-body (w ∷ ws) rest = omega (
  arith,
  length-body ws rest,
  length-append (w ++ space ∷ body ws) rest,
  length-append w (space ∷ body ws),
  length-append (body ws) rest,
)

abbrev next_word : List (List ℕ) → Bool → Option (List ℕ × List ℕ)
next_word [] commented = none
next_word (w ∷ ws) commented = some (w, body ws ++ line_end commented)

strtok_r-line :
    (ws : List (List ℕ)) (commented : Bool)
    → AllPlain ws
    → strtok_r (body ws ++ line_end commented) ≡ next_word ws commented
strtok_r-line [] commented h = strtok_r-end commented
strtok_r-line (w ∷ ws) commented h = strtok_r-body w ws (line_end commented) h.0 h.1

set_arg-words :
    (opt : Opt) (ws : List (List ℕ)) (commented : Bool) (conf : Config)
    → set_arg opt (next_word ws commented) conf
      ≡ (elim opt [ opt_relay ↦ conf | o ↦ directive_meaning o ws conf ])
unfolding set_arg directive_meaning
set_arg-words opt_listen [] commented conf = refl
set_arg-words opt_listen (w ∷ ws) commented conf = refl
set_arg-words opt_forward [] commented conf = refl
set_arg-words opt_forward (w ∷ ws) commented conf = refl
set_arg-words opt_track [] commented conf = refl
set_arg-words opt_track (w ∷ ws) commented conf = refl
set_arg-words opt_relay ws commented conf = refl
set_arg-words opt_local ws commented conf = refl
set_arg-words opt_remote ws commented conf = refl
set_arg-words opt_none ws commented conf = refl

pub add_relay-with_relay :
    (conf : Config) (l r : Option (List ℕ))
    → add_relay conf (record { local_addr = l; remote_addr = r }) ≡ with_relay conf l r
unfolding add_relay with_relay
add_relay-with_relay conf none r = refl
add_relay-with_relay conf (some l) none = refl
add_relay-with_relay conf (some l) (some r) = refl

directive-words :
    (opt : Opt) (ws : List (List ℕ)) (commented : Bool) (conf : Config)
    → AllPlain ws
    → directive opt (body ws ++ line_end commented) conf ≡ some (directive_meaning opt ws conf)
unfolding directive directive_meaning
directive-words opt_relay ws commented conf h =
    let rc = relay_meaning ws no_addr in
    rw
      (
        relay_args-words (suc (length (body ws ++ line_end commented))) ws commented no_addr h
            (omega (arith, length-body ws (line_end commented))),
        ◌>>=◌,
      )
      (ap some (add_relay-with_relay conf rc.local_addr rc.remote_addr))
directive-words opt ws commented conf h =
    rw (strtok_r-line ws commented h) (ap some (set_arg-words opt ws commented conf))

abbrev is_commented : Option (List ℕ) → Bool
is_commented none = false
is_commented (some c) = true

before-append :
    (c : ℕ) (xs ys : List ℕ) → has c xs ≡ false → before c (xs ++ ys) ≡ xs ++ before c ys
unfolding before
before-append c [] ys h = refl
before-append c (x ∷ xs) ys h = rw (differs, before-append c xs ys (ground arith))
  where
    differs : (x == c) ≡ false
    differs = ground arith

no-hash_word : (w : List ℕ) → all_plain w ≡ true → has hash w ≡ false
no-hash_word [] h = refl
no-hash_word (b ∷ w) h =
    let p = Plain-parts b w h in ground (arith, p.no_hash, no-hash_word w p.tail_plain)

-- Neither mark occurs between the words.
body-marks :
    (ws : List (List ℕ)) → AllPlain ws → (has 0 (body ws) ≡ false) × (has hash (body ws) ≡ false)
body-marks [] h = (refl, refl)
body-marks (w ∷ ws) h =
    let (no_nul, no_hash) = body-marks ws h.2 in
    (
      rw (has-append 0 w (space ∷ body ws), no-nul_word w h.1, no_nul),
      rw (has-append hash w (space ∷ body ws), no-hash_word w h.1, no_hash),
    )

-- What the comment leaves of a line in the buffer.
cut_line :
    (ws : List (List ℕ)) (comment : Option (List ℕ))
    → AllPlain ws
    → before hash (before 0 (body ws ++ (comment_text comment ++ newline ∷ [])))
      ≡ body ws ++ line_end (is_commented comment)
unfolding before
cut_line ws none h =
    let (no_nul, no_hash) = body-marks ws h in
    ap (before hash) (before-append 0 (body ws) (newline ∷ []) no_nul)
    ∙ before-append hash (body ws) (newline ∷ []) no_hash
cut_line ws (some c) h =
    let (no_nul, no_hash) = body-marks ws h in
    ap (before hash) (before-append 0 (body ws) (hash ∷ c ++ newline ∷ []) no_nul)
    ∙ before-append hash (body ws) (hash ∷ before 0 (c ++ newline ∷ [])) no_hash

-- A line with its words says what the specification says, with its comment or without.
pub parse_line-meaning :
    (ws : List (List ℕ)) (comment : Option (List ℕ)) (conf : Config)
    → AllPlain ws
    → parse_line (body ws ++ (comment_text comment ++ newline ∷ [])) conf ≡ some (meaning ws conf)
unfolding parse_line meaning
parse_line-meaning [] comment conf h =
    rw (cut_line [] comment h, parse_line) (rw (strtok_r-end (is_commented comment)) refl)
parse_line-meaning (w ∷ ws) comment conf h =
    rw (cut_line (w ∷ ws) comment h, parse_line)
      (rw (strtok_r-body w ws (line_end (is_commented comment)) h.0 h.1) (
        rw (lexeme-index w h.1, ◌>>=◌)
          (directive-words (to_opt (index lexemes w 0)) ws (is_commented comment) conf h.2)))
