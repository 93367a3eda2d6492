-- ===== src/Config/Tokens.antt =====
-- config.c: what strtok_r finds, and that the loop over the arguments of a relay line returns.
use udprelayd.Base.{
  ℕ, zero, suc, ◌≤◌, ◌<◌, ◌≡◌, refl, ◌⊎◌, inl, inr, false, Bool-cases, none, some, List, [], ◌∷◌,
  if-both, length, has, arith,
}
use udprelayd.Utils.{◌>>=◌}
use udprelayd.Utils.Index.{index, str_index-index, no-nul}
use udprelayd.Config.Bytes.{strtok_r, token, token_of, skip_delims, is_delim}
use udprelayd.Config.Words.{lexemes-AllWords}
use udprelayd.Config.{RelayConfig, lexemes, to_opt, lexeme, set_addr, is_addr, relay_args}

-- What holds of a token that strtok_r finds in a string.
pub record Found (s : List ℕ) (r : List ℕ × List ℕ) : Type 0 where
  pub shorter : length r.1 < length s
  pub word_text : has 0 r.0 ≡ false
  pub rest_text : has 0 r.1 ≡ false

record Split (s : List ℕ) (r : List ℕ × List ℕ) : Type 0 where
  no_longer : length r.1 ≤ length s
  word_text : has 0 r.0 ≡ false
  rest_text : has 0 r.1 ≡ false

token-Split : (s : List ℕ) → has 0 s ≡ false → Split s (token s)
unfolding token
token-Split [] h = record { no_longer = omega arith; word_text = refl; rest_text = refl }
token-Split (b ∷ bs) h =
    let (not_nul, tail) = no-nul b bs h in
    let t = token-Split bs tail in
    if-both (Split (b ∷ bs)) (is_delim b) _ _
      (record { no_longer = omega arith; word_text = refl; rest_text = tail })
      (record {
        no_longer = omega (arith, t.no_longer);
        word_text = ground (arith, not_nul, t.word_text);
        rest_text = t.rest_text;
      })

token-Found : (b : ℕ) (bs : List ℕ) → has 0 (b ∷ bs) ≡ false → Found (b ∷ bs) (token (b ∷ bs))
unfolding token
token-Found b bs h =
    let (not_nul, tail) = no-nul b bs h in
    let t = token-Split bs tail in
    if-both (Found (b ∷ bs)) (is_delim b) _ _
      (record { shorter = omega arith; word_text = refl; rest_text = tail })
      (record {
        shorter = omega (arith, t.no_longer);
        word_text = ground (arith, not_nul, t.word_text);
        rest_text = t.rest_text;
      })

skip_delims-text :
    (s : List ℕ)
    → has 0 s ≡ false
    → (length (skip_delims s) ≤ length s) × (has 0 (skip_delims s) ≡ false)
unfolding skip_delims
skip_delims-text [] h = (omega arith, refl)
skip_delims-text (b ∷ bs) h =
    let (not_nul, tail) = no-nul b bs h in
    let (short, rest) = skip_delims-text bs tail in
    if-both (λ (x : List ℕ). (length x ≤ length (b ∷ bs)) × (has 0 x ≡ false)) (is_delim b) _ _
      (omega (arith, short), rest) (omega arith, h)

-- strtok_r finds no token, or one with what follows it, which is shorter than the string.
pub strtok_r-cases :
    (s : List ℕ)
    → has 0 s ≡ false
    → (strtok_r s ≡ none) ⊎ ((r : List ℕ × List ℕ) × (strtok_r s ≡ some r) × Found s r)
unfolding strtok_r token_of
strtok_r-cases s h =
    let (short, text) = skip_delims-text s h in split (skip_delims s) refl short text
  where
    split :
        (x : List ℕ)
        → skip_delims s ≡ x
        → length x ≤ length s
        → has 0 x ≡ false
        → (strtok_r s ≡ none) ⊎ ((r : List ℕ × List ℕ) × (strtok_r s ≡ some r) × Found s r)
    split [] e short text = inl (rw (e, strtok_r) refl)
    split (b ∷ bs) e short text =
        let f = token-Found b bs text in
        inr (
          token (b ∷ bs),
          rw (e, strtok_r) refl,
          record {
            shorter = omega (arith, f.shorter, short);
            word_text = f.word_text;
            rest_text = f.rest_text;
          },
        )

pub lexeme-total : (s : List ℕ) → has 0 s ≡ false → lexeme s ≡ some (to_opt (index lexemes s 0))
unfolding lexeme
lexeme-total s h = rw (str_index-index lexemes s [] lexemes-AllWords h, ◌>>=◌)

pub relay_args-total :
    (k : ℕ) (last : List ℕ) (rc : RelayConfig)
    → has 0 last ≡ false
    → length last < k
    → (rc' : RelayConfig) × (relay_args k last rc ≡ some rc')
unfolding relay_args
relay_args-total zero last rc h fuel = absurd (omega arith)
relay_args-total (suc k) last rc h fuel = elim (strtok_r-cases last h) [
  | inl e ↦ (rc, rw (e, relay_args))
  | inr (r, e, f) ↦ elim (Bool-cases (is_addr (to_opt (index lexemes r.0 0)))) [
    | inl addr ↦ elim (strtok_r-cases r.1 f.rest_text) [
      | inl e' ↦
          (rc, rw (e, relay_args) (rw (lexeme-total r.0 f.word_text, ◌>>=◌) (rw addr (rw e' refl))))
      | inr (r', e', f') ↦
          let (rc', done) =
            relay_args-total k r'.1 (set_addr (to_opt (index lexemes r.0 0)) r'.0 rc) f'.rest_text
              (omega (arith, f.shorter, f'.shorter)) in
          (
            rc',
            rw (e, relay_args) (rw (lexeme-total r.0 f.word_text, ◌>>=◌) (rw addr (rw e' done))),
          )
    ]
    | inr other ↦
        let (rc', done) = relay_args-total k r.1 rc f.rest_text (omega (arith, f.shorter)) in
        (rc', rw (e, relay_args) (rw (lexeme-total r.0 f.word_text, ◌>>=◌) (rw other done)))
  ]
]
