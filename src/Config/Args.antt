-- ===== src/Config/Args.antt =====
-- config.c: the arguments of a relay line by their words.
use udprelayd.Base.{
  ℕ, zero, suc, ◌<◌, ◌≡◌, refl, sym, ◌∙◌, ap₂, Bool, true, false, some, List, [], ◌∷◌, ◌++◌, ◌==◌,
  ==_iff, if◌then◌else◌, length, arith, Bool-cases, inl, inr,
}
use udprelayd.Base.Int.{pos, negsuc}
use udprelayd.Utils.{◌>>=◌}
use udprelayd.Utils.Index.{index, same}
use udprelayd.Config.{
  RelayConfig, lexemes, to_opt, opt_local, opt_remote, set_addr, is_addr, relay_args,
}
use udprelayd.Config.Words.{
  AllPlain, all_plain, body, line_end, strtok_r-body, strtok_r-end, lexeme-index,
}

-- `local` and `remote`
abbrev pub local_word : List ℕ
local_word = 108 ∷ 111 ∷ 99 ∷ 97 ∷ 108 ∷ []

abbrev pub remote_word : List ℕ
remote_word = 114 ∷ 101 ∷ 109 ∷ 111 ∷ 116 ∷ 101 ∷ []

-- The specification: what the arguments of a relay line say, by their words.
unfoldable pub relay_meaning : List (List ℕ) → RelayConfig → RelayConfig
relay_meaning [] rc = rc
relay_meaning (w ∷ []) rc = rc
relay_meaning (w ∷ addr ∷ ws) rc =
    let as_local = relay_meaning ws (record rc { local_addr = some addr }) in
    let as_remote = relay_meaning ws (record rc { remote_addr = some addr }) in
    let skipped = relay_meaning (addr ∷ ws) rc in
    if same local_word w then as_local else if same remote_word w then as_remote else skipped

same-eq : (x y : List ℕ) → same x y ≡ true → y ≡ x
unfolding same
same-eq [] [] h = refl
same-eq [] (b ∷ y) h = cc
same-eq (a ∷ x) [] h = cc
same-eq (a ∷ x) (b ∷ y) h = elim (Bool-cases (a == b)) [
  | inl e ↦ ap₂ (λ c l. c ∷ l) (sym ((==_iff a b).0 e)) (same-eq x y (rw e at h))
  | inr ne ↦ cc
]

kind-local : (w : List ℕ) → same local_word w ≡ true → to_opt (index lexemes w 0) ≡ opt_local
unfolding to_opt index same
kind-local w h = rw (same-eq local_word w h) refl

kind-remote : (w : List ℕ) → same remote_word w ≡ true → to_opt (index lexemes w 0) ≡ opt_remote
unfolding to_opt index same
kind-remote w h = rw (same-eq remote_word w h) refl

other_kinds :
    (a b c d : Bool)
    → is_addr (
        to_opt (
          if a
          then pos 0
          else if b
          then pos 1
          else if c
          then pos 2
          else if d
          then pos 5
          else negsuc 0))
      ≡ false
unfolding to_opt is_addr
other_kinds true b c d = refl
other_kinds false true c d = refl
other_kinds false false true d = refl
other_kinds false false false true = refl
other_kinds false false false false = refl

-- No other word names an address.
pub kind-other :
    (w : List ℕ)
    → same local_word w ≡ false
    → same remote_word w ≡ false
    → is_addr (to_opt (index lexemes w 0)) ≡ false
unfolding index
kind-other w not_local not_remote =
    rw (not_local, not_remote)
      (other_kinds (same (108 ∷ 105 ∷ 115 ∷ 116 ∷ 101 ∷ 110 ∷ []) w)
        (same (102 ∷ 111 ∷ 114 ∷ 119 ∷ 97 ∷ 114 ∷ 100 ∷ []) w)
        (same (114 ∷ 101 ∷ 108 ∷ 97 ∷ 121 ∷ []) w) (same (116 ∷ 114 ∷ 97 ∷ 99 ∷ 107 ∷ []) w))

-- One argument word: whether it names an address, and which.
abbrev pub Takes : List ℕ → (RelayConfig → List ℕ → RelayConfig) → Type 0
Takes w set =
    (is_addr (to_opt (index lexemes w 0)) ≡ true)
    × ((rc : RelayConfig) (addr : List ℕ)
        → set_addr (to_opt (index lexemes w 0)) addr rc ≡ set rc addr)

pub Takes-local :
    (w : List ℕ)
    → same local_word w ≡ true
    → Takes w (λ rc addr. record rc { local_addr = some addr })
unfolding is_addr set_addr
Takes-local w h = (rw (kind-local w h) refl, λ rc addr. rw (kind-local w h) refl)

pub Takes-remote :
    (w : List ℕ)
    → same remote_word w ≡ true
    → Takes w (λ rc addr. record rc { remote_addr = some addr })
unfolding is_addr set_addr
Takes-remote w h = (rw (kind-remote w h) refl, λ rc addr. rw (kind-remote w h) refl)

relay_args-last :
    (k : ℕ) (w : List ℕ) (commented : Bool) (rc : RelayConfig)
    → 0 < length w
    → all_plain w ≡ true
    → relay_args (suc (suc k)) (body (w ∷ []) ++ line_end commented) rc ≡ some rc
unfolding relay_args
relay_args-last k w commented rc some_bytes h =
    rw (strtok_r-body w [] (line_end commented) some_bytes h, relay_args)
      (rw (lexeme-index w h, ◌>>=◌)
        (elim (Bool-cases (is_addr (to_opt (index lexemes w 0)))) [
          | inl e ↦ rw e (rw (strtok_r-end commented))
          | inr ne ↦ rw ne (rw (strtok_r-end commented, relay_args) refl)
        ]))

relay_args-addr :
    (k : ℕ) (w addr : List ℕ) (ws : List (List ℕ)) (commented : Bool) (rc : RelayConfig)
    (set : RelayConfig → List ℕ → RelayConfig)
    → AllPlain (w ∷ addr ∷ ws)
    → Takes w set
    → relay_args (suc k) (body (w ∷ addr ∷ ws) ++ line_end commented) rc
      ≡ relay_args k (body ws ++ line_end commented) (set rc addr)
unfolding relay_args
relay_args-addr k w addr ws commented rc set h names =
    rw (strtok_r-body w (addr ∷ ws) (line_end commented) h.0 h.1, relay_args)
      (rw (lexeme-index w h.1, ◌>>=◌)
        (rw names.0 (
          rw (strtok_r-body addr ws (line_end commented) h.2.0 h.2.1) (rw (names.1 rc addr) refl))))

relay_args-skip :
    (k : ℕ) (w addr : List ℕ) (ws : List (List ℕ)) (commented : Bool) (rc : RelayConfig)
    → AllPlain (w ∷ addr ∷ ws)
    → is_addr (to_opt (index lexemes w 0)) ≡ false
    → relay_args (suc k) (body (w ∷ addr ∷ ws) ++ line_end commented) rc
      ≡ relay_args k (body (addr ∷ ws) ++ line_end commented) rc
unfolding relay_args
relay_args-skip k w addr ws commented rc h other =
    rw (strtok_r-body w (addr ∷ ws) (line_end commented) h.0 h.1, relay_args)
      (rw (lexeme-index w h.1, ◌>>=◌) (rw other refl))

pub relay_args-words :
    (k : ℕ) (ws : List (List ℕ)) (commented : Bool) (rc : RelayConfig)
    → AllPlain ws
    → length ws < k
    → relay_args k (body ws ++ line_end commented) rc ≡ some (relay_meaning ws rc)
unfolding relay_args relay_meaning
relay_args-words zero ws commented rc h fuel = absurd (omega arith)
relay_args-words (suc k) [] commented rc h fuel = rw (strtok_r-end commented, relay_args)
relay_args-words (suc zero) (w ∷ []) commented rc h fuel = absurd (omega arith)
relay_args-words (suc (suc k)) (w ∷ []) commented rc h fuel =
    relay_args-last k w commented rc h.0 h.1
relay_args-words (suc k) (w ∷ addr ∷ ws) commented rc h fuel =
    elim (Bool-cases (same local_word w)) [
      | inl e ↦
          relay_args-addr k w addr ws commented rc _ h (Takes-local w e)
          ∙ relay_args-words k ws commented (record rc { local_addr = some addr }) h.2.2
              (omega arith)
          ∙ rw e refl
      | inr ne ↦ elim (Bool-cases (same remote_word w)) [
        | inl e ↦
            relay_args-addr k w addr ws commented rc _ h (Takes-remote w e)
            ∙ relay_args-words k ws commented (record rc { remote_addr = some addr }) h.2.2
                (omega arith)
            ∙ rw (ne, e) refl
        | inr ne' ↦
            relay_args-skip k w addr ws commented rc h (kind-other w ne ne')
            ∙ relay_args-words k (addr ∷ ws) commented rc h.2 (omega arith)
            ∙ rw (ne, ne') refl
      ]
    ]
