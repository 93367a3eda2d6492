-- ===== src/Config/Fields.antt =====
-- config.c: the words of any line. The specification splits a line at its white space.
use udprelayd.Base.{
  ℕ, zero, suc, ◌<◌, ◌≤◌, ◌≡◌, refl, ◌∙◌, ap, Bool, true, false, not, Option, none, some, List, [],
  ◌∷◌, ◌++◌, ◌==◌, length, has, arith, if◌then◌else◌, Bool-cases, inl, inr, ◌⊎◌,
}
use udprelayd.Utils.{◌>>=◌}
use udprelayd.Utils.Index.{index, same, str_index-index}
use udprelayd.Config.Bytes.{strtok_r, token, token_of, skip_delims, is_delim, newline, before, hash}
use udprelayd.Config.{
  RelayConfig, Config, Opt, opt_listen, opt_forward, opt_track, opt_local, opt_remote, opt_none,
  parse_line, opt_relay, lexemes, to_opt, lexeme, is_addr, relay_args, set_arg, no_addr, directive,
}
use udprelayd.Config.Args.{
  local_word, remote_word, relay_meaning, Takes, Takes-local, Takes-remote, kind-other,
}
use udprelayd.Config.Words.{lexemes-AllWords}
use udprelayd.Config.Lines.{directive_meaning, add_relay-with_relay, meaning}

abbrev starts : List ℕ → Bool
starts [] = false
starts (b ∷ bs) = not (is_delim b)

abbrev pub extend : ℕ → List (List ℕ) → List (List ℕ)
extend b [] = (b ∷ []) ∷ []
extend b (w ∷ ws) = (b ∷ w) ∷ ws

-- The longest parts without white space.
unfoldable pub fields : List ℕ → List (List ℕ)
fields [] = []
fields (b ∷ bs) =
    let ws = fields bs in
    if is_delim b then ws else if starts bs then extend b ws else (b ∷ []) ∷ ws

-- A token and what is left, for the words `ws` of a string.
abbrev pub Next : List ℕ → List (List ℕ) → Option (List ℕ × List ℕ) → Type 0
Next s [] res = res ≡ none
Next s (w ∷ ws) res =
    (rest : List ℕ) × (res ≡ some (w, rest))
    × (fields rest ≡ ws)
    × (has 0 w ≡ false)
    × (has 0 rest ≡ false)
    × (length rest < length s)

-- Where a word starts, `token` takes it.
token-fields :
    (b : ℕ) (bs : List ℕ)
    → is_delim b ≡ false
    → fields (b ∷ bs) ≡ (token (b ∷ bs)).0 ∷ fields (token (b ∷ bs)).1
unfolding fields token
token-fields b [] word = rw word refl
token-fields b (c ∷ cs) word = elim (Bool-cases (is_delim c)) [
  | inl ends ↦ rw (word, ends) refl
  | inr goes_on ↦ rw (word, token-fields c cs goes_on) (rw goes_on refl)
]

token-bytes :
    (s : List ℕ)
    → has 0 s ≡ false
    → (has 0 (token s).0 ≡ false) × (has 0 (token s).1 ≡ false) × (length (token s).1 ≤ length s)
unfolding token
token-bytes [] h = (refl, refl, omega arith)
token-bytes (b ∷ bs) h = ground (arith, token-bytes bs)

strtok_r-word :
    (b : ℕ) (bs : List ℕ) → is_delim b ≡ false → strtok_r (b ∷ bs) ≡ some (token (b ∷ bs))
unfolding strtok_r skip_delims token_of
strtok_r-word b bs word = rw word refl

skipped :
    (b : ℕ) (bs : List ℕ)
    → is_delim b ≡ true
    → (strtok_r (b ∷ bs) ≡ strtok_r bs) × (fields (b ∷ bs) ≡ fields bs)
unfolding strtok_r skip_delims fields
skipped b bs white = rw white (refl, refl)

-- The rest of a word gets shorter.
token-shorter :
    (b : ℕ) (bs : List ℕ)
    → is_delim b ≡ false
    → has 0 (b ∷ bs) ≡ false
    → length (token (b ∷ bs)).1 < length (b ∷ bs)
unfolding token
token-shorter b bs word h =
    let (_, _, short) = token-bytes bs (ground arith) in rw word (omega (arith, short))

Next-later :
    (b : ℕ) (bs : List ℕ) (ws : List (List ℕ)) (res : Option (List ℕ × List ℕ))
    → Next bs ws res
    → Next (b ∷ bs) ws res
Next-later b bs [] res h = h
Next-later b bs (w ∷ ws) res (rest, e, f, g, g', short) = (rest, e, f, g, g', omega (arith, short))

nothing_left : Next [] (fields []) (strtok_r [])
unfolding fields strtok_r skip_delims token_of
nothing_left = refl

-- strtok_r finds the words one after the other.
pub strtok_r-fields : (s : List ℕ) → has 0 s ≡ false → Next s (fields s) (strtok_r s)
strtok_r-fields [] h = nothing_left
strtok_r-fields (b ∷ bs) h = elim (Bool-cases (is_delim b)) [
  | inl white ↦
      let (same_token, same_fields) = skipped b bs white in
      rw (same_token, same_fields)
        (Next-later b bs (fields bs) (strtok_r bs) (strtok_r-fields bs (ground arith)))
  | inr word ↦
      let (no_nul, no_nul', _) = token-bytes (b ∷ bs) h in
      rw (token-fields b bs word, strtok_r-word b bs word)
        ((token (b ∷ bs)).1, refl, refl, no_nul, no_nul', token-shorter b bs word h)
]

lexeme-lem : (w : List ℕ) → has 0 w ≡ false → lexeme w ≡ some (to_opt (index lexemes w 0))
unfolding lexeme
lexeme-lem w h = rw (str_index-index lexemes w [] lexemes-AllWords h, ◌>>=◌)

-- The two steps of the loop over the arguments of a relay line.
module _ (k : ℕ) (s rest w : List ℕ) (rc : RelayConfig) (token_found : strtok_r s ≡ some (w, rest))
    (no_nul : has 0 w ≡ false) where
  args-skip :
      is_addr (to_opt (index lexemes w 0)) ≡ false → relay_args (suc k) s rc ≡ relay_args k rest rc
  unfolding relay_args
  args-skip other = rw (token_found, relay_args) (rw (lexeme-lem w no_nul, ◌>>=◌) (rw other refl))

  args-last :
      is_addr (to_opt (index lexemes w 0)) ≡ true
      → strtok_r rest ≡ none
      → relay_args (suc k) s rc ≡ some rc
  unfolding relay_args
  args-last addr ends =
      rw (token_found, relay_args) (rw (lexeme-lem w no_nul, ◌>>=◌) (rw addr (rw ends refl)))

  args-addr :
      (addr rest' : List ℕ) (set : RelayConfig → List ℕ → RelayConfig)
      → Takes w set
      → strtok_r rest ≡ some (addr, rest')
      → relay_args (suc k) s rc ≡ relay_args k rest' (set rc addr)
  unfolding relay_args
  args-addr addr rest' set names next =
      rw (token_found, relay_args)
        (rw (lexeme-lem w no_nul, ◌>>=◌) (rw names.0 (rw next (rw (names.1 rc addr) refl))))

relay_args-end :
    (k : ℕ) (s : List ℕ) (rc : RelayConfig) → strtok_r s ≡ none → relay_args (suc k) s rc ≡ some rc
unfolding relay_args
relay_args-end k s rc e = rw (e, relay_args) refl

-- The loop from a string of at most `k` bytes.
abbrev Loop : ℕ → Type 0
Loop k =
    (s : List ℕ) (rc : RelayConfig)
    → has 0 s ≡ false
    → length s < k
    → relay_args k s rc ≡ some (relay_meaning (fields s) rc)

-- The loop at a word, with the words behind it.
relay_args-word :
    (k : ℕ) (s rest w : List ℕ) (ws : List (List ℕ)) (rc : RelayConfig)
    → Loop k
    → strtok_r s ≡ some (w, rest)
    → has 0 w ≡ false
    → has 0 rest ≡ false
    → length rest < k
    → fields rest ≡ ws
    → Next rest ws (strtok_r rest)
    → relay_args (suc k) s rc ≡ some (relay_meaning (w ∷ ws) rc)
unfolding relay_meaning
relay_args-word k s rest w [] rc loop found no_nul no_nul' fuel f ends =
    elim (Bool-cases (is_addr (to_opt (index lexemes w 0)))) [
      | inl addr ↦ args-last k s rest w rc found no_nul addr ends
      | inr other ↦
          args-skip k s rest w rc found no_nul other
          ∙ loop rest rc no_nul' fuel
          ∙ ap (λ ws. some (relay_meaning ws rc)) f
    ]
relay_args-word k s rest w (addr ∷ ws) rc loop found no_nul no_nul' fuel f
      (rest', found', f', g, g', short) =
    elim (Bool-cases (same local_word w)) [
      | inl e ↦
          args-addr k s rest w rc found no_nul addr rest' _ (Takes-local w e) found'
          ∙ loop rest' (record rc { local_addr = some addr }) g' (omega (arith, short, fuel))
          ∙ rw (e, f') refl
      | inr ne ↦ elim (Bool-cases (same remote_word w)) [
        | inl e ↦
            args-addr k s rest w rc found no_nul addr rest' _ (Takes-remote w e) found'
            ∙ loop rest' (record rc { remote_addr = some addr }) g' (omega (arith, short, fuel))
            ∙ rw (ne, e, f') refl
        | inr ne' ↦
            args-skip k s rest w rc found no_nul (kind-other w ne ne')
            ∙ loop rest rc no_nul' fuel
            ∙ rw (ne, ne', f) refl
      ]
    ]

relay_args-Next :
    (k : ℕ) (s : List ℕ) (ws : List (List ℕ)) (rc : RelayConfig)
    → Loop k
    → length s < suc k
    → Next s ws (strtok_r s)
    → relay_args (suc k) s rc ≡ some (relay_meaning ws rc)
relay_args-Next k s [] rc loop fuel ends = relay_args-end k s rc ends ∙ unfold relay_meaning in refl
relay_args-Next k s (w ∷ ws) rc loop fuel (rest, found, f, g, g', short) =
    relay_args-word k s rest w ws rc loop found g g' (omega (arith, short, fuel)) f
      (rw f at (strtok_r-fields rest g'))

relay_args-fields : (k : ℕ) → Loop k
relay_args-fields zero s rc h fuel = absurd (omega arith)
relay_args-fields (suc k) s rc h fuel =
    relay_args-Next k s (fields s) rc (relay_args-fields k) fuel (strtok_r-fields s h)

abbrev first : List (List ℕ) → List ℕ → Option (List ℕ × List ℕ)
first [] rest = none
first (w ∷ ws) rest = some (w, rest)

Next-first :
    (s : List ℕ) (ws : List (List ℕ)) (res : Option (List ℕ × List ℕ))
    → Next s ws res
    → (rest : List ℕ) × (res ≡ first ws rest)
Next-first s [] res ends = (s, ends)
Next-first s (w ∷ ws) res (rest, found, _, _, _, _) = (rest, found)

-- A directive that takes one word.
set_arg-first :
    (opt : Opt) (ws : List (List ℕ)) (rest : List ℕ) (conf : Config)
    → set_arg opt (first ws rest) conf
      ≡ (elim opt [ opt_relay ↦ conf | o ↦ directive_meaning o ws conf ])
unfolding set_arg directive_meaning
set_arg-first opt_listen [] rest conf = refl
set_arg-first opt_listen (w ∷ ws) rest conf = refl
set_arg-first opt_forward [] rest conf = refl
set_arg-first opt_forward (w ∷ ws) rest conf = refl
set_arg-first opt_track [] rest conf = refl
set_arg-first opt_track (w ∷ ws) rest conf = refl
set_arg-first opt_relay ws rest conf = refl
set_arg-first opt_local ws rest conf = refl
set_arg-first opt_remote ws rest conf = refl
set_arg-first opt_none ws rest conf = refl

directive-fields :
    (opt : Opt) (s : List ℕ) (conf : Config)
    → has 0 s ≡ false
    → directive opt s conf ≡ some (directive_meaning opt (fields s) conf)
unfolding directive directive_meaning
directive-fields opt_relay s conf h =
    let rc = relay_meaning (fields s) no_addr in
    rw (relay_args-fields (suc (length s)) s no_addr h (omega arith), ◌>>=◌)
      (ap some (add_relay-with_relay conf rc.local_addr rc.remote_addr))
directive-fields opt s conf h =
    let (rest, e) = Next-first s (fields s) (strtok_r s) (strtok_r-fields s h) in
    rw e (ap some (set_arg-first opt (fields s) rest conf))

-- What a line says, without what follows its first 0 or its first `#`.
abbrev pub line_meaning : List ℕ → Config → Config
line_meaning line conf = meaning (fields (before hash (before 0 line))) conf

before-none : (c : ℕ) (s : List ℕ) → has c (before c s) ≡ false
unfolding before
before-none c [] = refl
before-none c (b ∷ bs) = ground (arith, before-none c bs)

before-other : (c d : ℕ) (s : List ℕ) → has d s ≡ false → has d (before c s) ≡ false
unfolding before
before-other c d [] h = refl
before-other c d (b ∷ bs) h = ground (arith, before-other c d bs)

-- The newline at the end of a line is of no account.
before-newline :
    (c : ℕ) (s : List ℕ)
    → (before c (s ++ newline ∷ []) ≡ before c s)
      ⊎ (before c (s ++ newline ∷ []) ≡ before c s ++ newline ∷ [])
unfolding before
before-newline c [] = elim (Bool-cases (newline == c)) [
  | inl ends ↦ inl (rw ends refl)
  | inr other ↦ inr (rw other refl)
]
before-newline c (b ∷ bs) = elim (Bool-cases (b == c)) [
  | inl ends ↦ inl (rw ends refl)
  | inr other ↦ elim (before-newline c bs) [
    | inl e ↦ inl (rw (other, e) refl)
    | inr e ↦ inr (rw (other, e) refl)
  ]
]

starts-newline : (s : List ℕ) → starts (s ++ newline ∷ []) ≡ starts s
unfolding is_delim
starts-newline [] = refl
starts-newline (b ∷ bs) = refl

fields-newline : (s : List ℕ) → fields (s ++ newline ∷ []) ≡ fields s
unfolding fields is_delim
fields-newline [] = refl
fields-newline (b ∷ bs) = rw (fields-newline bs, starts-newline bs) refl

clean-newline :
    (s : List ℕ)
    → fields (before hash (before 0 (s ++ newline ∷ []))) ≡ fields (before hash (before 0 s))
clean-newline s = elim (before-newline 0 s) [
  | inl e ↦ rw e refl
  | inr e ↦ elim (before-newline hash (before 0 s)) [
    | inl e' ↦ rw (e, e') refl
    | inr e' ↦ rw (e, e') (fields-newline (before hash (before 0 s)))
  ]
]

parse_line-Next :
    (buf : List ℕ) (ws : List (List ℕ)) (conf : Config)
    → Next (before hash (before 0 buf)) ws (strtok_r (before hash (before 0 buf)))
    → parse_line buf conf ≡ some (meaning ws conf)
unfolding parse_line meaning
parse_line-Next buf [] conf ends = rw (ends, parse_line) refl
parse_line-Next buf (w ∷ ws) conf (rest, found, f, g, g', short) =
    rw (found, parse_line)
      (rw (lexeme-lem w g, ◌>>=◌)
        (directive-fields (to_opt (index lexemes w 0)) rest conf g'
          ∙ ap (λ ws. some (directive_meaning (to_opt (index lexemes w 0)) ws conf)) f))

pub parse_line-fields :
    (buf : List ℕ) (conf : Config) → parse_line buf conf ≡ some (line_meaning buf conf)
parse_line-fields buf conf = parse_line-Next buf (fields (before hash (before 0 buf))) conf (
    strtok_r-fields (before hash (before 0 buf))
      (before-other hash 0 (before 0 buf) (before-none 0 buf)))

pub line_meaning-newline :
    (line : List ℕ) (conf : Config)
    → line_meaning (line ++ newline ∷ []) conf ≡ line_meaning line conf
line_meaning-newline line conf = ap (λ ws. meaning ws conf) (clean-newline line)
