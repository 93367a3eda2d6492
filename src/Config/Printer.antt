-- ===== src/Config/Printer.antt =====
-- config.c: a configuration as the lines of a file, and what the specification makes of them.
use udprelayd.Base.{
  ℕ, ◌<◌, ◌≡◌, refl, ◌∙◌, ap, sym, Option, none, some, List, [], ◌∷◌, ◌++◌, append_assoc,
  append-nil,
}
use udprelayd.Base.Int.{pos}
use udprelayd.Utils.Index.{index, same}
use udprelayd.Config.{RelayConfig, Config, def_config, to_opt}
use udprelayd.Config.Args.{local_word, remote_word, relay_meaning}
use udprelayd.Config.Lines.{Line, file_text, file_meaning, meaning, directive_meaning, with_relay}
use udprelayd.Config.Decimal.{decimal}
use udprelayd.Config.Strtol.{strtol-decimal}

-- What a configuration is to say; a relay is its local and its remote address.
pub record Settings : Type 0 where
  pub listen : Option (List ℕ)
  pub forward : Option (List ℕ)
  pub track : ℕ
  pub relays : List (List ℕ × List ℕ)

abbrev pub relay_configs : List (List ℕ × List ℕ) → List RelayConfig
relay_configs [] = []
relay_configs ((l, r) ∷ rs) =
    record { local_addr = some l; remote_addr = some r } ∷ relay_configs rs

abbrev pub config_of : Settings → Config
config_of s = record {
  outward = record { local_addr = s.listen; remote_addr = s.forward };
  relay_config = relay_configs s.relays;
  track = pos s.track;
}

abbrev pub line : List (List ℕ) → Line
line ws = record { words = ws; comment = none }

-- `listen` and `forward`, where there is an address.
abbrev pub listen_lines : Option (List ℕ) → List Line
listen_lines none = []
listen_lines (some a) = line ((108 ∷ 105 ∷ 115 ∷ 116 ∷ 101 ∷ 110 ∷ []) ∷ a ∷ []) ∷ []

abbrev pub forward_lines : Option (List ℕ) → List Line
forward_lines none = []
forward_lines (some a) = line ((102 ∷ 111 ∷ 114 ∷ 119 ∷ 97 ∷ 114 ∷ 100 ∷ []) ∷ a ∷ []) ∷ []

abbrev pub track_line : ℕ → Line
track_line n = line ((116 ∷ 114 ∷ 97 ∷ 99 ∷ 107 ∷ []) ∷ decimal n ∷ [])

-- `relay local` and `remote`
abbrev pub relay_lines : List (List ℕ × List ℕ) → List Line
relay_lines [] = []
relay_lines ((l, r) ∷ rs) =
    line ((114 ∷ 101 ∷ 108 ∷ 97 ∷ 121 ∷ []) ∷ local_word ∷ l ∷ remote_word ∷ r ∷ [])
    ∷ relay_lines rs

abbrev pub lines_of : Settings → List Line
lines_of s =
    listen_lines s.listen
    ++ (forward_lines s.forward ++ (track_line s.track ∷ relay_lines s.relays))

-- The configuration as the bytes of a file.
abbrev pub print_config : Settings → List ℕ
print_config s = file_text (lines_of s)

file_meaning-append :
    (a b : List Line) (conf : Config)
    → file_meaning (a ++ b) conf ≡ file_meaning b (file_meaning a conf)
unfolding file_meaning
file_meaning-append [] b conf = refl
file_meaning-append (l ∷ a) b conf = file_meaning-append a b (meaning l.words conf)

listen_lines-meaning :
    (a : Option (List ℕ))
    → file_meaning (listen_lines a) def_config
      ≡ record def_config { outward = record { local_addr = a; remote_addr = none } }
unfolding file_meaning meaning directive_meaning index same to_opt
listen_lines-meaning none = refl
listen_lines-meaning (some a) = refl

forward_lines-meaning :
    (l a : Option (List ℕ)) (conf : Config)
    → file_meaning
        (forward_lines a)
        (record conf { outward = record { local_addr = l; remote_addr = none } })
      ≡ record conf { outward = record { local_addr = l; remote_addr = a } }
unfolding file_meaning meaning directive_meaning index same to_opt
forward_lines-meaning l none conf = refl
forward_lines-meaning l (some a) conf = refl

track_line-meaning :
    (n : ℕ) (conf : Config)
    → n < 2147483648
    → meaning (track_line n).words conf ≡ record conf { track = pos n }
unfolding meaning directive_meaning index same to_opt
track_line-meaning n conf h = ap (λ t. record conf { track = t }) (strtol-decimal n h)

relay_line-meaning :
    (l r : List ℕ) (conf : Config)
    → meaning ((114 ∷ 101 ∷ 108 ∷ 97 ∷ 121 ∷ []) ∷ local_word ∷ l ∷ remote_word ∷ r ∷ []) conf
      ≡ record conf { relay_config = conf.relay_config ++ relay_configs ((l, r) ∷ []) }
unfolding meaning directive_meaning index same to_opt relay_meaning with_relay
relay_line-meaning l r conf = refl

relay_lines-meaning :
    (rs : List (List ℕ × List ℕ)) (conf : Config)
    → file_meaning (relay_lines rs) conf
      ≡ record conf { relay_config = conf.relay_config ++ relay_configs rs }
unfolding file_meaning
relay_lines-meaning [] conf =
    ap (λ rcs. record conf { relay_config = rcs }) (sym (append-nil conf.relay_config))
relay_lines-meaning ((l, r) ∷ rs) conf =
    let rc = relay_configs ((l, r) ∷ []) in
    ap (file_meaning (relay_lines rs)) (relay_line-meaning l r conf)
    ∙ relay_lines-meaning rs (record conf { relay_config = conf.relay_config ++ rc })
    ∙ ap (λ rcs. record conf { relay_config = rcs })
        (append_assoc conf.relay_config rc (relay_configs rs))

pub lines_of-meaning :
    (s : Settings) → s.track < 2147483648 → file_meaning (lines_of s) def_config ≡ config_of s
unfolding file_meaning
lines_of-meaning s fits =
    let rest = track_line s.track ∷ relay_lines s.relays in
    let listened = record def_config {
      outward = record { local_addr = s.listen; remote_addr = none };
    } in
    let forwarded = record def_config {
      outward = record { local_addr = s.listen; remote_addr = s.forward };
    } in
    file_meaning-append (listen_lines s.listen) (forward_lines s.forward ++ rest) def_config
    ∙ ap (file_meaning (forward_lines s.forward ++ rest)) (listen_lines-meaning s.listen)
    ∙ file_meaning-append (forward_lines s.forward) rest listened
    ∙ ap (file_meaning rest) (forward_lines-meaning s.listen s.forward def_config)
    ∙ ap (file_meaning (relay_lines s.relays)) (track_line-meaning s.track forwarded fits)
    ∙ relay_lines-meaning s.relays (record forwarded { track = pos s.track })
