-- ===== src/Config/Total.antt =====
-- config.c: on every file the parser returns, with `NULL` or with a configuration that has all that
-- new_relay and the daemon need.
use udprelayd.Base.{
  ℕ, zero, suc, ◌-◌, ◌≤◌, ◌<◌, ◌≡◌, refl, inl, inr, true, false, not, ◌&&◌, ◌||◌, Bool-cases,
  Option, none, some, List, [], ◌∷◌, ◌++◌, ◌==◌, if-both, length, has, arith,
}
use udprelayd.Utils.{◌>>=◌}
use udprelayd.Utils.Index.{index, no-nul}
use udprelayd.Config.Bytes.{fgets, before, hash, strtok_r}
use udprelayd.Config.{
  Opt, opt_relay, opt_listen, opt_forward, opt_track, RelayConfig, Config, no_addr, def_config,
  lexemes, to_opt, is_set, add_relay, set_arg, directive, parse_line, readbuf_sz, parse_lines,
  no_relay, complete, parse_config,
}
use udprelayd.Config.Tokens.{strtok_r-cases, lexeme-total, relay_args-total}

-- Both addresses of the relay are given.
abbrev pub HasAddrs : RelayConfig → Type 0
HasAddrs rc = (is_set rc.local_addr ≡ true) × (is_set rc.remote_addr ≡ true)

abbrev pub AllAddrs : List RelayConfig → Type 0
AllAddrs [] = Unit
AllAddrs (rc ∷ rcs) = HasAddrs rc × AllAddrs rcs

AllAddrs-snoc :
    (rcs : List RelayConfig) (rc : RelayConfig)
    → AllAddrs rcs
    → HasAddrs rc
    → AllAddrs (rcs ++ rc ∷ [])
AllAddrs-snoc [] rc h a = (a, tt)
AllAddrs-snoc (x ∷ rcs) rc h a = (h.0, AllAddrs-snoc rcs rc h.1 a)

add_relay-AllAddrs :
    (conf : Config) (rc : RelayConfig)
    → AllAddrs conf.relay_config
    → AllAddrs (add_relay conf rc).relay_config
unfolding add_relay
add_relay-AllAddrs conf rc h = elim (Bool-cases (is_set rc.local_addr && is_set rc.remote_addr)) [
  | inl both ↦ rw both (AllAddrs-snoc conf.relay_config rc h (ground arith, ground arith))
  | inr missing ↦ rw missing h
]

set_arg-AllAddrs :
    (opt : Opt) (arg : Option (List ℕ × List ℕ)) (conf : Config)
    → AllAddrs conf.relay_config
    → AllAddrs (set_arg opt arg conf).relay_config
unfolding set_arg
set_arg-AllAddrs opt_listen none conf h = h
set_arg-AllAddrs opt_listen (some a) conf h = h
set_arg-AllAddrs opt_forward none conf h = h
set_arg-AllAddrs opt_forward (some a) conf h = h
set_arg-AllAddrs opt_track none conf h = h
set_arg-AllAddrs opt_track (some a) conf h = h
set_arg-AllAddrs _ arg conf h = h

-- A step of the parser returns, and every relay has both addresses after it.
abbrev Returns : Option Config → Type 0
Returns result = (conf : Config) × (result ≡ some conf) × AllAddrs conf.relay_config

directive-Returns :
    (opt : Opt) (last : List ℕ) (conf : Config)
    → has 0 last ≡ false
    → AllAddrs conf.relay_config
    → Returns (directive opt last conf)
unfolding directive
directive-Returns opt_relay last conf text h =
    let (rc, done) = relay_args-total (suc (length last)) last no_addr text (omega arith) in
    (add_relay conf rc, rw (done, ◌>>=◌) refl, add_relay-AllAddrs conf rc h)
directive-Returns opt last conf text h =
    (set_arg opt (strtok_r last) conf, refl, set_arg-AllAddrs opt (strtok_r last) conf h)

before-text : (c : ℕ) (s : List ℕ) → has 0 s ≡ false → has 0 (before c s) ≡ false
unfolding before
before-text c [] h = refl
before-text c (b ∷ bs) h =
    let (not_nul, tail) = no-nul b bs h in
    if-both (λ (x : List ℕ). has 0 x ≡ false) (b == c) _ _ refl
      (ground (arith, not_nul, before-text c bs tail))

before-nul : (s : List ℕ) → has 0 (before 0 s) ≡ false
unfolding before
before-nul [] = refl
before-nul (b ∷ bs) = elim (Bool-cases (b == 0)) [
  | inl nul ↦ rw nul refl
  | inr not_nul ↦ rw not_nul (ground (arith, not_nul, before-nul bs))
]

parse_line-Returns :
    (buf : List ℕ) (conf : Config) → AllAddrs conf.relay_config → Returns (parse_line buf conf)
unfolding parse_line
parse_line-Returns buf conf h =
    elim (strtok_r-cases (before hash (before 0 buf))
      (before-text hash (before 0 buf) (before-nul buf))) [
        | inl e ↦ (conf, rw (e, parse_line) refl, h)
        | inr (r, e, f) ↦
            let (conf', done, h') =
              directive-Returns (to_opt (index lexemes r.0 0)) r.1 conf f.rest_text h in
            (conf', rw (e, parse_line) (rw (lexeme-total r.0 f.word_text, ◌>>=◌) done), h')
      ]

fgets-shorter : (n : ℕ) (file : List ℕ) → length (fgets n file).1 ≤ length file
unfolding fgets
fgets-shorter zero file = omega arith
fgets-shorter (suc n) [] = omega arith
fgets-shorter (suc n) (b ∷ file) =
    if-both (λ (x : List ℕ × List ℕ). length x.1 ≤ length (b ∷ file)) (b == 10) _ _ (omega arith)
      (omega (arith, fgets-shorter n file))

fgets-reads : (n b : ℕ) (file : List ℕ) → length (fgets (suc n) (b ∷ file)).1 ≤ length file
unfolding fgets
fgets-reads n b file =
    if-both (λ (x : List ℕ × List ℕ). length x.1 ≤ length file) (b == 10) (b ∷ [], file)
      (b ∷ (fgets n file).0, (fgets n file).1) (omega arith) (fgets-shorter n file)

parse_lines-Returns :
    (k : ℕ) (file : List ℕ) (conf : Config)
    → length file < k
    → AllAddrs conf.relay_config
    → Returns (parse_lines k file conf)
unfolding parse_lines
parse_lines-Returns zero file conf fuel h = absurd (omega arith)
parse_lines-Returns (suc k) [] conf fuel h = (conf, refl, h)
parse_lines-Returns (suc k) (b ∷ file) conf fuel h =
    let (conf₁, done, h₁) = parse_line-Returns (fgets (readbuf_sz - 1) (b ∷ file)).0 conf h in
    let (conf₂, rest, h₂) =
      parse_lines-Returns k (fgets (readbuf_sz - 1) (b ∷ file)).1 conf₁
        (omega (arith, fgets-reads 4094 b file)) h₁ in
    (conf₂, rw (done, ◌>>=◌) rest, h₂)

-- A configuration that parse_config may return.
pub record IsValid (conf : Config) : Type 0 where
  pub outward_addr : (is_set conf.outward.local_addr || is_set conf.outward.remote_addr) ≡ true
  pub some_relay : 0 < length conf.relay_config
  pub relay_addrs : AllAddrs conf.relay_config

abbrev pub IsNullOrValid : Option Config → Type 0
IsNullOrValid none = Unit
IsNullOrValid (some conf) = IsValid conf

length-some_relay : (rcs : List RelayConfig) → no_relay rcs ≡ false → 0 < length rcs
length-some_relay [] h = absurd (ground arith)
length-some_relay (rc ∷ rcs) h = omega arith

complete-IsValid : (conf : Config) → AllAddrs conf.relay_config → IsNullOrValid (complete conf)
unfolding complete
complete-IsValid conf h =
    elim (Bool-cases (
      (not (is_set conf.outward.local_addr) && not (is_set conf.outward.remote_addr))
      || no_relay conf.relay_config)) [
        | inl missing ↦ rw missing tt
        | inr there ↦ rw there (record {
          outward_addr = ground arith;
          some_relay = length-some_relay conf.relay_config (ground arith);
          relay_addrs = h;
        })
      ]

-- On every file, and where fopen fails, parse_config neither faults nor runs out of fuel, and
-- returns `NULL` or a configuration with an address for the outward interface and at least one
-- relay, each with both addresses.
pub parse_config-IsValid :
    (file : Option (List ℕ))
    → (result : Option Config) × (parse_config file ≡ some result) × IsNullOrValid result
unfolding parse_config
parse_config-IsValid none = (none, refl, tt)
parse_config-IsValid (some file) =
    let (conf, done, h) =
      parse_lines-Returns (suc (length file)) file def_config (omega arith) tt in
    (complete conf, rw (done, ◌>>=◌) refl, complete-IsValid conf h)
