-- ===== src/Config/Tests.antt =====
-- config.c on small files.
use udprelayd.Base.{ℕ, ◌≡◌, refl, arith, Option, some, none, List, [], ◌∷◌}
use udprelayd.Base.Int.{pos, negsuc}
use udprelayd.Utils.Index.{index, same}
use udprelayd.Config.{Config, parse_config, def_config, complete, to_opt}
use udprelayd.Config.Args.{relay_meaning}
use udprelayd.Config.Lines.{
  Line, AllLines, file_text, file_meaning, meaning, directive_meaning, with_relay,
}
use udprelayd.Config.Fields.{fields}
use udprelayd.Config.Text.{text_lines, text_meaning, AllFit, parse_config-text}
use udprelayd.Config.Printer.{Settings, config_of, print_config}
use udprelayd.Config.RoundTrip.{IsPrintable, parse_config-print}
use udprelayd.Config.Total.{IsNullOrValid, parse_config-IsValid}
use udprelayd.Config.Bytes.{
  before, strtol, to_int, sign, skip_spaces, to_long, digits, prefix, digit, is_delim,
}

hexadecimal : strtol (48 ∷ 120 ∷ 49 ∷ 70 ∷ []) ≡ pos 31
unfolding strtol to_int sign skip_spaces to_long digits prefix digit
hexadecimal = refl

octal : strtol (48 ∷ 49 ∷ 48 ∷ []) ≡ pos 8
unfolding strtol to_int sign skip_spaces to_long digits prefix digit
octal = refl

negative : strtol (45 ∷ 53 ∷ 120 ∷ []) ≡ negsuc 4
unfolding strtol to_int sign skip_spaces to_long digits prefix digit
negative = refl

-- 2 ^ 32 does not fit an `int`.
wraps : strtol (52 ∷ 50 ∷ 57 ∷ 52 ∷ 57 ∷ 54 ∷ 55 ∷ 50 ∷ 57 ∷ 54 ∷ []) ≡ pos 0
unfolding strtol to_int sign skip_spaces to_long digits prefix digit
wraps = refl

-- `listen a`, a comment, and `relay local b remote c # d`.
abbrev lines : List Line
lines =
    record { words = (108 ∷ 105 ∷ 115 ∷ 116 ∷ 101 ∷ 110 ∷ []) ∷ (97 ∷ []) ∷ []; comment = none }
    ∷ record { words = []; comment = some (33 ∷ []) }
    ∷ record {
      words =
          (114 ∷ 101 ∷ 108 ∷ 97 ∷ 121 ∷ [])
          ∷ (108 ∷ 111 ∷ 99 ∷ 97 ∷ 108 ∷ [])
          ∷ (98 ∷ [])
          ∷ (114 ∷ 101 ∷ 109 ∷ 111 ∷ 116 ∷ 101 ∷ [])
          ∷ (99 ∷ [])
          ∷ [];
      comment = some (32 ∷ 100 ∷ []);
    }
    ∷ []

lines-AllLines : AllLines lines
unfolding is_delim
lines-AllLines = (
  record {
    plain = (omega arith, refl, (omega arith, refl, tt));
    one_line = refl;
    fits = omega arith;
  },
  (
    record { plain = tt; one_line = refl; fits = omega arith },
    (
      record {
        plain = (
          omega arith,
          refl,
          (omega arith, refl, (omega arith, refl, (omega arith, refl, (omega arith, refl, tt)))),
        );
        one_line = refl;
        fits = omega arith;
      },
      tt,
    ),
  ),
)

-- What the three lines say.
abbrev wanted : Config
wanted = record {
  outward = record { local_addr = some (97 ∷ []); remote_addr = none };
  relay_config = record { local_addr = some (98 ∷ []); remote_addr = some (99 ∷ []) } ∷ [];
  track = pos 1024;
}

lines-meaning : file_meaning lines def_config ≡ wanted
unfolding file_meaning meaning directive_meaning relay_meaning index same to_opt with_relay
lines-meaning = refl

-- A comment, `forward`, an empty line, a relay line with a tab, two spaces and a comment, and `track`
-- without a newline behind it.
abbrev text : List ℕ
text =
    35 ∷ 32 ∷ 114 ∷ 101 ∷ 108 ∷ 97 ∷ 121 ∷ 115 ∷ 10 ∷ 102 ∷ 111 ∷ 114 ∷ 119 ∷ 97 ∷ 114 ∷ 100 ∷ 32
    ∷ 108 ∷ 111 ∷ 99 ∷ 97 ∷ 108 ∷ 104 ∷ 111 ∷ 115 ∷ 116 ∷ 58 ∷ 49 ∷ 49 ∷ 57 ∷ 53 ∷ 10 ∷ 10 ∷ 9 ∷ 114
    ∷ 101 ∷ 108 ∷ 97 ∷ 121 ∷ 32 ∷ 108 ∷ 111 ∷ 99 ∷ 97 ∷ 108 ∷ 32 ∷ 42 ∷ 58 ∷ 49 ∷ 49 ∷ 57 ∷ 54 ∷ 32
    ∷ 32 ∷ 114 ∷ 101 ∷ 109 ∷ 111 ∷ 116 ∷ 101 ∷ 32 ∷ 102 ∷ 114 ∷ 97 ∷ 112 ∷ 112 ∷ 101 ∷ 46 ∷ 108
    ∷ 111 ∷ 99 ∷ 97 ∷ 108 ∷ 58 ∷ 49 ∷ 49 ∷ 57 ∷ 54 ∷ 32 ∷ 35 ∷ 32 ∷ 102 ∷ 105 ∷ 114 ∷ 115 ∷ 116 ∷ 10
    ∷ 116 ∷ 114 ∷ 97 ∷ 99 ∷ 107 ∷ 32 ∷ 49 ∷ 50 ∷ 56 ∷ []

abbrev text_config : Config
text_config = record {
  outward = record {
    local_addr = none;
    remote_addr =
        some (108 ∷ 111 ∷ 99 ∷ 97 ∷ 108 ∷ 104 ∷ 111 ∷ 115 ∷ 116 ∷ 58 ∷ 49 ∷ 49 ∷ 57 ∷ 53 ∷ []);
  };
  relay_config =
      record {
        local_addr = some (42 ∷ 58 ∷ 49 ∷ 49 ∷ 57 ∷ 54 ∷ []);
        remote_addr = some (
            102 ∷ 114 ∷ 97 ∷ 112 ∷ 112 ∷ 101 ∷ 46 ∷ 108 ∷ 111 ∷ 99 ∷ 97 ∷ 108 ∷ 58 ∷ 49 ∷ 49 ∷ 57
            ∷ 54 ∷ []);
      }
      ∷ [];
  track = pos 128;
}

text-meaning : text_meaning (text_lines text) def_config ≡ text_config
unfolding text_meaning text_lines fields meaning directive_meaning relay_meaning index same to_opt
    with_relay before is_delim strtol to_int sign skip_spaces to_long digits prefix digit
text-meaning = refl

text-AllFit : AllFit (text_lines text)
unfolding text_lines
text-AllFit = omega arith

parse_config-text_example :
    parse_config (some text) ≡ some (complete (text_meaning (text_lines text) def_config))
parse_config-text_example = parse_config-text text text-AllFit

parse_config-IsValid_example :
    (result : Option Config) × (parse_config (some (file_text lines)) ≡ some result)
    × IsNullOrValid result
parse_config-IsValid_example = parse_config-IsValid (some (file_text lines))

-- `listen a`, `track 77` and one relay.
abbrev settings : Settings
settings = record {
  listen = some (97 ∷ []);
  forward = none;
  track = 77;
  relays = (98 ∷ [], 99 ∷ []) ∷ [];
}

settings-IsPrintable : IsPrintable settings
unfolding is_delim
settings-IsPrintable = record {
  some_outward = refl;
  some_relay = omega arith;
  listen_addr = (omega arith, refl, omega arith);
  forward_addr = tt;
  relay_addrs = ((omega arith, refl, omega arith), (omega arith, refl, omega arith), tt);
  track_fits = omega arith;
}

parse_config-print_example :
    parse_config (some (print_config settings)) ≡ some (some (config_of settings))
parse_config-print_example = parse_config-print settings settings-IsPrintable
