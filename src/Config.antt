-- ===== src/Config.antt =====
-- config.h and config.c: the configuration and its parser, on the bytes of the file. The outer
-- `Option` is a fault, or a loop without enough fuel; `CLIST_ADD_LAST` appends (see Clist).
pub mod Bytes
pub mod Words
pub mod Args
pub mod Lines
pub mod Files
pub mod Decimal
pub mod Strtol
pub mod Printer
pub mod RoundTrip
pub mod Fields
pub mod Text
pub mod Tokens
pub mod Total
mod Tests
use udprelayd.Base.{
  ℕ, zero, suc, ◌-◌, Bool, true, false, not, ◌&&◌, ◌||◌, Option, none, some, List, [], ◌∷◌, ◌++◌,
  ◌==◌, if◌then◌else◌, length,
}
use udprelayd.Base.Int.{ℤ, pos, negsuc}
use udprelayd.Utils.{str_index, ◌>>=◌}
use udprelayd.Utils.Index.{array_of}
use Bytes.{fgets, before, strtok_r, strtol, hash}

-- `struct _relay_config_t`, with `none` for `NULL`.
pub record RelayConfig : Type 0 where
  pub local_addr : Option (List ℕ)
  pub remote_addr : Option (List ℕ)

-- `struct _config_t`
pub record Config : Type 0 where
  pub outward : RelayConfig
  pub relay_config : List RelayConfig
  pub track : ℤ

-- `calloc`
abbrev pub no_addr : RelayConfig
no_addr = record { local_addr = none; remote_addr = none }

-- The configuration before the first line, with DEF_TRACK.
abbrev pub def_config : Config
def_config = record { outward = no_addr; relay_config = []; track = pos 1024 }

-- The words of `lexemes`: listen, forward, relay, local, remote and track.
abbrev pub lexemes : List (List ℕ)
lexemes =
    (108 ∷ 105 ∷ 115 ∷ 116 ∷ 101 ∷ 110 ∷ [])
    ∷ (102 ∷ 111 ∷ 114 ∷ 119 ∷ 97 ∷ 114 ∷ 100 ∷ [])
    ∷ (114 ∷ 101 ∷ 108 ∷ 97 ∷ 121 ∷ [])
    ∷ (108 ∷ 111 ∷ 99 ∷ 97 ∷ 108 ∷ [])
    ∷ (114 ∷ 101 ∷ 109 ∷ 111 ∷ 116 ∷ 101 ∷ [])
    ∷ (116 ∷ 114 ∷ 97 ∷ 99 ∷ 107 ∷ [])
    ∷ []

-- `opt_t`, and what is none of them.
pub data Opt : Type 0 where
  opt_listen opt_forward opt_relay opt_local opt_remote opt_track opt_none : Opt

unfoldable pub to_opt : ℤ → Opt
to_opt (negsuc n) = opt_none
to_opt (pos n) =
    if n == 0
    then opt_listen
    else if n == 1
    then opt_forward
    else if n == 2
    then opt_relay
    else if n == 3
    then opt_local
    else if n == 4
    then opt_remote
    else if n == 5
    then opt_track
    else opt_none

-- `str_index(lexemes, str)`
unfoldable pub lexeme : List ℕ → Option Opt
lexeme str = do i ← str_index (array_of lexemes) (str ++ 0 ∷ []); some (to_opt i)

-- `strreplace` of the address that an argument of a relay line names.
unfoldable pub set_addr : Opt → List ℕ → RelayConfig → RelayConfig
set_addr opt_local addr rc = record rc { local_addr = some addr }
set_addr opt_remote addr rc = record rc { remote_addr = some addr }
set_addr _ addr rc = rc

-- `arg != OPT_LOCAL && arg != OPT_REMOTE`
unfoldable pub is_addr : Opt → Bool
is_addr opt_local = true
is_addr opt_remote = true
is_addr _ = false

-- The loop over the arguments of a relay line.
unfoldable pub relay_args : ℕ → List ℕ → RelayConfig → Option RelayConfig
relay_args zero last rc = none
relay_args (suc k) last rc = elim (strtok_r last) [
  | none ↦ some rc
  | some (arg_str, last) ↦ (do
    arg ← lexeme arg_str
    if is_addr arg
        then (elim (strtok_r last) [
          | none ↦ some rc
          | some (addr, last) ↦ relay_args k last (set_addr arg addr rc)
        ])
        else relay_args k last rc)
]

abbrev pub is_set : Option (List ℕ) → Bool
is_set none = false
is_set (some addr) = true

-- `CLIST_ADD_LAST` if both addresses are there, and else the relay is given up.
unfoldable pub add_relay : Config → RelayConfig → Config
add_relay conf rc =
    if is_set rc.local_addr && is_set rc.remote_addr
    then record conf { relay_config = conf.relay_config ++ rc ∷ [] }
    else conf

-- The other directives, with their argument if there is one.
unfoldable pub set_arg : Opt → Option (List ℕ × List ℕ) → Config → Config
set_arg opt_listen (some (arg, last)) conf = record conf {
  outward = record conf.outward { local_addr = some arg };
}
set_arg opt_forward (some (arg, last)) conf = record conf {
  outward = record conf.outward { remote_addr = some arg };
}
set_arg opt_track (some (arg, last)) conf = record conf { track = strtol arg }
set_arg _ _ conf = conf

unfoldable pub directive : Opt → List ℕ → Config → Option Config
directive opt_relay last conf = do
  rc ← relay_args (suc (length last)) last no_addr
  some (add_relay conf rc)
directive opt last conf = some (set_arg opt (strtok_r last) conf)

-- The body of the loop over the lines, after fgets.
unfoldable pub parse_line : List ℕ → Config → Option Config
parse_line buf conf = elim (strtok_r (before hash (before 0 buf))) [
  | none ↦ some conf
  | some (param, last) ↦ (do opt ← lexeme param; directive opt last conf)
]

-- `READBUF_SZ`
abbrev pub readbuf_sz : ℕ
readbuf_sz = 4096

-- `while(fgets(buf, sizeof(buf), fp))`
unfoldable pub parse_lines : ℕ → List ℕ → Config → Option Config
parse_lines zero file conf = none
parse_lines (suc k) [] conf = some conf
parse_lines (suc k) (b ∷ file) conf =
    let (buf, rest) = fgets (readbuf_sz - 1) (b ∷ file) in
    (do conf ← parse_line buf conf; parse_lines k rest conf)

abbrev pub no_relay : List RelayConfig → Bool
no_relay [] = true
no_relay (rc ∷ rcs) = false

-- The test for missing critical parameters.
unfoldable pub complete : Config → Option Config
complete conf =
    if (not (is_set conf.outward.local_addr) && not (is_set conf.outward.remote_addr))
      || no_relay conf.relay_config
    then none
    else some conf

-- The file's bytes, or `none` if fopen fails. The inner `none` is the code's `NULL`.
unfoldable pub parse_config : Option (List ℕ) → Option (Option Config)
parse_config none = some none
parse_config (some file) = do
  conf ← parse_lines (suc (length file)) file def_config
  some (complete conf)
