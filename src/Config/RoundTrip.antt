-- ===== src/Config/RoundTrip.antt =====
-- config.c: a configuration written as a file, and read by parse_config.
use udprelayd.Base.{
  ℕ, ◌+◌, ◌<◌, ◌≤◌, ◌≡◌, refl, ◌∙◌, ap, Bool, true, false, ◌||◌, ◌&&◌, not, Option, none, some,
  List, [], ◌∷◌, ◌++◌, length, length-append, arith,
}
use udprelayd.Config.Bytes.{is_delim, space}
use udprelayd.Config.{is_set, no_relay, complete, parse_config}
use udprelayd.Config.Args.{local_word, remote_word}
use udprelayd.Config.Words.{all_plain, body}
use udprelayd.Config.Lines.{Line, IsLine, AllLines}
use udprelayd.Config.Files.{parse_config-meaning}
use udprelayd.Config.Decimal.{decimal}
use udprelayd.Config.Strtol.{decimal-all_plain, decimal-length}
use udprelayd.Config.Printer.{
  Settings, relay_configs, config_of, line, listen_lines, forward_lines, track_line, relay_lines,
  lines_of, print_config, lines_of-meaning,
}

-- An address that can stand in a line: not empty, without the bytes that end a word, and short
-- enough for two of them in a line.
abbrev pub IsAddr : List ℕ → Type 0
IsAddr a = (0 < length a) × (all_plain a ≡ true) × (length a ≤ 2000)

abbrev pub NoneOrAddr : Option (List ℕ) → Type 0
NoneOrAddr none = Unit
NoneOrAddr (some a) = IsAddr a

abbrev pub AllAddrs : List (List ℕ × List ℕ) → Type 0
AllAddrs [] = Unit
AllAddrs ((l, r) ∷ rs) = IsAddr l × IsAddr r × AllAddrs rs

pub record IsPrintable (s : Settings) : Type 0 where
  pub some_outward : (is_set s.listen || is_set s.forward) ≡ true
  pub some_relay : 0 < length s.relays
  pub listen_addr : NoneOrAddr s.listen
  pub forward_addr : NoneOrAddr s.forward
  pub relay_addrs : AllAddrs s.relays
  pub track_fits : s.track < 2147483648

abbrev size_of : List (List ℕ) → ℕ
size_of [] = 0
size_of (w ∷ ws) = length w + 1 + size_of ws

length-body_words : (ws : List (List ℕ)) → length (body ws ++ []) ≡ size_of ws
length-body_words [] = refl
length-body_words (w ∷ ws) = omega (
  arith,
  length-body_words ws,
  length-append (body ws) [],
  length-append w (space ∷ body ws),
  length-append (w ++ space ∷ body ws) [],
)

-- A line of a directive and one word.
one_word-IsLine :
    (w a : List ℕ)
    → (0 < length w) × (all_plain w ≡ true) × (length w ≤ 10)
    → IsAddr a
    → IsLine (line (w ∷ a ∷ []))
one_word-IsLine w a known h = record {
  plain = (known.0, known.1, (h.0, h.1, tt));
  one_line = refl;
  fits = omega (arith, length-body_words (w ∷ a ∷ []));
}

relay_line-IsLine :
    (l r : List ℕ)
    → IsAddr l
    → IsAddr r
    → IsLine (line ((114 ∷ 101 ∷ 108 ∷ 97 ∷ 121 ∷ []) ∷ local_word ∷ l ∷ remote_word ∷ r ∷ []))
unfolding is_delim
relay_line-IsLine l r h g = record {
  plain = (omega arith, refl, (omega arith, refl, (h.0, h.1, (omega arith, refl, (g.0, g.1, tt)))));
  one_line = refl;
  fits = omega (
    arith,
    length-body_words ((114 ∷ 101 ∷ 108 ∷ 97 ∷ 121 ∷ []) ∷ local_word ∷ l ∷ remote_word ∷ r ∷ []),
  );
}

listen_lines-AllLines : (a : Option (List ℕ)) → NoneOrAddr a → AllLines (listen_lines a)
unfolding is_delim
listen_lines-AllLines none h = tt
listen_lines-AllLines (some a) h = (
  one_word-IsLine (108 ∷ 105 ∷ 115 ∷ 116 ∷ 101 ∷ 110 ∷ []) a (omega arith, refl, omega arith) h,
  tt,
)

forward_lines-AllLines : (a : Option (List ℕ)) → NoneOrAddr a → AllLines (forward_lines a)
unfolding is_delim
forward_lines-AllLines none h = tt
forward_lines-AllLines (some a) h = (
  one_word-IsLine (102 ∷ 111 ∷ 114 ∷ 119 ∷ 97 ∷ 114 ∷ 100 ∷ []) a (omega arith, refl, omega arith)
      h,
  tt,
)

track_line-IsLine : (n : ℕ) → n < 2147483648 → IsLine (track_line n)
unfolding is_delim
track_line-IsLine n h =
    let (some_digit, short) = decimal-length n h in
    one_word-IsLine (116 ∷ 114 ∷ 97 ∷ 99 ∷ 107 ∷ []) (decimal n) (omega arith, refl, omega arith)
      (some_digit, decimal-all_plain n, omega arith)

relay_lines-AllLines : (rs : List (List ℕ × List ℕ)) → AllAddrs rs → AllLines (relay_lines rs)
relay_lines-AllLines [] h = tt
relay_lines-AllLines ((l, r) ∷ rs) h = (relay_line-IsLine l r h.0 h.1, relay_lines-AllLines rs h.2)

AllLines-append : (a b : List Line) → AllLines a → AllLines b → AllLines (a ++ b)
AllLines-append [] b h g = g
AllLines-append (l ∷ a) b h g = (h.0, AllLines-append a b h.1 g)

lines_of-AllLines : (s : Settings) → IsPrintable s → AllLines (lines_of s)
lines_of-AllLines s p =
    AllLines-append (listen_lines s.listen) _ (listen_lines-AllLines s.listen p.listen_addr) (
      AllLines-append (forward_lines s.forward) _ (forward_lines-AllLines s.forward p.forward_addr)
        (track_line-IsLine s.track p.track_fits, relay_lines-AllLines s.relays p.relay_addrs))

no_relay-some : (rs : List (List ℕ × List ℕ)) → 0 < length rs → no_relay (relay_configs rs) ≡ false
no_relay-some [] h = absurd (omega arith)
no_relay-some (r ∷ rs) h = refl

nothing_missing : (a b c : Bool) → (a || b) ≡ true → c ≡ false → ((not a && not b) || c) ≡ false
nothing_missing a b c h g = ground arith

config_of-complete : (s : Settings) → IsPrintable s → complete (config_of s) ≡ some (config_of s)
unfolding complete
config_of-complete s p =
    rw
      (nothing_missing (is_set s.listen) (is_set s.forward) (no_relay (relay_configs s.relays))
        p.some_outward (no_relay-some s.relays p.some_relay))
      refl

-- parse_config reads back every configuration that is complete: written as lines `listen`, `forward`,
-- `track`, with a decimal number that fits an `int`, and `relay local … remote …`, with addresses that
-- are not empty, have at most 2000 bytes and no white space, `#` or 0, it gives the configuration.
pub parse_config-print :
    (s : Settings)
    → IsPrintable s
    → parse_config (some (print_config s)) ≡ some (some (config_of s))
parse_config-print s p =
    parse_config-meaning (lines_of s) (lines_of-AllLines s p)
    ∙ ap (λ conf. some (complete conf)) (lines_of-meaning s p.track_fits)
    ∙ ap some (config_of-complete s p)
