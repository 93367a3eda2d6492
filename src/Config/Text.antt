-- ===== src/Config/Text.antt =====
-- config.c: any file by its lines.
use udprelayd.Base.{
  ℕ, zero, suc, ◌-◌, ◌<◌, ◌≡◌, refl, ◌∙◌, ap, ◌⊎◌, inl, inr, true, false, some, List, [], ◌∷◌, ◌++◌,
  ◌==◌, length, arith, if◌then◌else◌, Bool-cases, ==_iff,
}
use udprelayd.Utils.{◌>>=◌}
use udprelayd.Config.Bytes.{fgets, newline}
use udprelayd.Config.{Config, def_config, readbuf_sz, parse_lines, complete, parse_config}
use udprelayd.Config.Fields.{extend, line_meaning, parse_line-fields, line_meaning-newline}

-- The lines of a file, without their newlines; the last may have none.
unfoldable pub text_lines : List ℕ → List (List ℕ)
text_lines [] = []
text_lines (b ∷ file) =
    let lines = text_lines file in if b == newline then [] ∷ lines else extend b lines

unfoldable pub text_meaning : List (List ℕ) → Config → Config
text_meaning [] conf = conf
text_meaning (line ∷ lines) conf = text_meaning lines (line_meaning line conf)

-- Every line fits the buffer, with its newline and the final 0.
abbrev pub AllFit : List (List ℕ) → Type 0
AllFit [] = Unit
AllFit (line ∷ lines) = (length line < readbuf_sz - 1) × AllFit lines

-- What fgets takes, for the lines of a file that is not at its end: the first, with its newline
-- if it has one.
abbrev Takes : List ℕ → List (List ℕ) → List ℕ × List ℕ → Type 0
Takes file [] res = ⊥
Takes file (line ∷ lines) (buf, rest) =
    ((buf ≡ line ++ newline ∷ []) ⊎ (buf ≡ line))
    × (text_lines rest ≡ lines)
    × (length rest < length file)

abbrev FirstFits : ℕ → List (List ℕ) → Type 0
FirstFits n [] = Unit
FirstFits n (line ∷ lines) = length line < n

Takes-extend :
    (b : ℕ) (file : List ℕ) (lines : List (List ℕ)) (buf rest : List ℕ)
    → Takes file lines (buf, rest)
    → Takes (b ∷ file) (extend b lines) (b ∷ buf, rest)
Takes-extend b file [] buf rest h = absurd h
Takes-extend b file (line ∷ lines) buf rest (inl e, same, short) =
    (inl (ap (λ l. b ∷ l) e), same, omega (arith, short))
Takes-extend b file (line ∷ lines) buf rest (inr e, same, short) =
    (inr (ap (λ l. b ∷ l) e), same, omega (arith, short))

FirstFits-extend :
    (b n : ℕ) (lines : List (List ℕ)) → FirstFits (suc n) (extend b lines) → FirstFits n lines
FirstFits-extend b n [] h = tt
FirstFits-extend b n (line ∷ lines) h = omega (arith, h)

fgets-last : (n b : ℕ) → (b == newline) ≡ false → fgets (suc n) (b ∷ []) ≡ (b ∷ [], [])
unfolding fgets
fgets-last zero b other = rw other refl
fgets-last (suc n) b other = rw other refl

-- A byte that ends the line, and another one.
module _ (b : ℕ) (file : List ℕ) where
  ended :
      (n : ℕ)
      → (b == newline) ≡ true
      → (text_lines (b ∷ file) ≡ [] ∷ text_lines file) × (fgets (suc n) (b ∷ file) ≡ (b ∷ [], file))
  unfolding fgets text_lines
  ended n ends = rw ends (refl, refl)

  going :
      (n : ℕ)
      → (b == newline) ≡ false
      → (text_lines (b ∷ file) ≡ extend b (text_lines file))
        × (fgets (suc n) (b ∷ file) ≡ (b ∷ (fgets n file).0, (fgets n file).1))
  unfolding fgets text_lines
  going n other = rw other (refl, refl)

FirstFits-none : (b : ℕ) (lines : List (List ℕ)) → FirstFits zero (extend b lines) → ⊥
FirstFits-none b [] h = absurd (omega (arith, h))
FirstFits-none b (line ∷ lines) h = absurd (omega (arith, h))

fgets-Takes :
    (n b : ℕ) (file : List ℕ)
    → FirstFits n (text_lines (b ∷ file))
    → Takes (b ∷ file) (text_lines (b ∷ file)) (fgets n (b ∷ file))
fgets-Takes zero b file h = elim (Bool-cases (b == newline)) [
  | inl ends ↦ absurd (no_room (rw (ended b file zero ends).0 at h))
  | inr other ↦ absurd (FirstFits-none b (text_lines file) (rw (going b file zero other).0 at h))
]
  where
    no_room : length {A = ℕ} [] < 0 → ⊥
    no_room l = omega (arith, l)
fgets-Takes (suc n) b [] h = elim (Bool-cases (b == newline)) [
  | inl ends ↦
      let (same, taken) = ended b [] n ends in
      rw (same, taken) (inl (ap (λ c. c ∷ []) ((==_iff b newline).0 ends)), refl, omega arith)
  | inr other ↦
      rw ((going b [] n other).0, fgets-last n b other)
        (unfold text_lines in (inr refl, refl, omega arith))
]
fgets-Takes (suc n) b (c ∷ file) h = elim (Bool-cases (b == newline)) [
  | inl ends ↦
      let (same, taken) = ended b (c ∷ file) n ends in
      rw (same, taken) (inl (ap (λ c. c ∷ []) ((==_iff b newline).0 ends)), refl, omega arith)
  | inr other ↦
      let (same, taken) = going b (c ∷ file) n other in
      rw (same, taken)
        (Takes-extend b (c ∷ file) (text_lines (c ∷ file)) (fgets n (c ∷ file)).0
          (fgets n (c ∷ file)).1
          (fgets-Takes n c file (FirstFits-extend b n (text_lines (c ∷ file)) (rw same at h))))
]

buffer_meaning :
    (line buf : List ℕ) (conf : Config)
    → (buf ≡ line ++ newline ∷ []) ⊎ (buf ≡ line)
    → line_meaning buf conf ≡ line_meaning line conf
buffer_meaning line buf conf (inl e) = rw e (line_meaning-newline line conf)
buffer_meaning line buf conf (inr e) = rw e refl

parse_lines-step :
    (k b : ℕ) (file : List ℕ) (conf : Config)
    → let (buf, rest) = fgets (readbuf_sz - 1) (b ∷ file) in
      parse_lines (suc k) (b ∷ file) conf ≡ parse_lines k rest (line_meaning buf conf)
unfolding parse_lines
parse_lines-step k b file conf =
    rw (parse_line-fields (fgets (readbuf_sz - 1) (b ∷ file)).0 conf, ◌>>=◌) refl

AllFit-first : (lines : List (List ℕ)) → AllFit lines → FirstFits (readbuf_sz - 1) lines
AllFit-first [] h = tt
AllFit-first (line ∷ lines) h = h.0

-- The loop from a file of at most `k` bytes.
abbrev Reads : ℕ → Type 0
Reads k =
    (file : List ℕ) (conf : Config)
    → length file < k
    → AllFit (text_lines file)
    → parse_lines k file conf ≡ some (text_meaning (text_lines file) conf)

after_line :
    (k : ℕ) (file buf rest : List ℕ) (lines : List (List ℕ)) (conf : Config)
    → Reads k
    → length file < suc k
    → AllFit lines
    → Takes file lines (buf, rest)
    → parse_lines k rest (line_meaning buf conf) ≡ some (text_meaning lines conf)
unfolding text_meaning
after_line k file buf rest [] conf reads fuel fit h = absurd h
after_line k file buf rest (line ∷ lines) conf reads fuel fit (taken, same, short) =
    reads rest (line_meaning buf conf) (omega (arith, short, fuel)) (rw same fit.1)
    ∙ rw (same, buffer_meaning line buf conf taken) refl

parse_lines-text : (k : ℕ) → Reads k
parse_lines-text zero file conf fuel fit = absurd (omega arith)
parse_lines-text (suc k) [] conf fuel fit =
    unfold parse_lines in unfold text_lines in unfold text_meaning in refl
parse_lines-text (suc k) (b ∷ file) conf fuel fit =
    parse_lines-step k b file conf
    ∙ after_line k (b ∷ file) (fgets (readbuf_sz - 1) (b ∷ file)).0
        (fgets (readbuf_sz - 1) (b ∷ file)).1 (text_lines (b ∷ file)) conf (parse_lines-text k) fuel
        fit (fgets-Takes (readbuf_sz - 1) b file (AllFit-first (text_lines (b ∷ file)) fit))

-- What parse_config makes of any file whose lines fit the buffer is what the specification says of
-- the words of its lines, or `NULL` if a critical parameter is missing: it never faults, and reads the
-- whole file. The words of a line are the parts between its white space, up to its first `#`, wherever
-- it stands, or 0; a relay line counts if it has both addresses.
pub parse_config-text :
    (file : List ℕ)
    → AllFit (text_lines file)
    → parse_config (some file) ≡ some (complete (text_meaning (text_lines file) def_config))
unfolding parse_config
parse_config-text file fit =
    rw (parse_lines-text (suc (length file)) file def_config (omega arith) fit, ◌>>=◌) refl
