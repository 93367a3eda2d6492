-- ===== src/Config/Files.antt =====
-- config.c: a whole file. Every line is shorter than the buffer.
use udprelayd.Base.{
  ℕ, zero, suc, ◌-◌, ◌≤◌, ◌<◌, ◌≡◌, refl, ◌∙◌, ap, true, false, some, List, [], ◌∷◌, ◌++◌, ◌==◌,
  length, has, arith, append_assoc, list_laws, length-append, has-append,
}
use udprelayd.Utils.{◌>>=◌}
use udprelayd.Config.Bytes.{fgets, newline, is_delim}
use udprelayd.Config.{
  Config, def_config, parse_line, readbuf_sz, parse_lines, complete, parse_config,
}
use udprelayd.Config.Words.{AllPlain, all_plain, Plain-parts, body}
use udprelayd.Config.Lines.{
  Line, IsLine, AllLines, comment_text, file_text, file_meaning, meaning, parse_line-meaning,
}

fgets-line :
    (n : ℕ) (line rest : List ℕ)
    → has newline line ≡ false
    → length line < n
    → fgets n (line ++ newline ∷ rest) ≡ (line ++ newline ∷ [], rest)
unfolding fgets
fgets-line zero line rest h fits = absurd (omega arith)
fgets-line (suc n) [] rest h fits = refl
fgets-line (suc n) (b ∷ line) rest h fits =
    rw (goes_on, fgets-line n line rest (ground arith) (omega arith))
  where
    goes_on : (b == newline) ≡ false
    goes_on = ground arith

pub parse_lines-line :
    (k : ℕ) (line rest : List ℕ) (conf : Config)
    → has newline line ≡ false
    → length line < readbuf_sz - 1
    → parse_lines (suc k) (line ++ newline ∷ rest) conf
      ≡ (parse_line (line ++ newline ∷ []) conf >>= parse_lines k rest)
unfolding parse_lines
parse_lines-line k [] rest conf h fits = rw (fgets-line (readbuf_sz - 1) [] rest h fits)
parse_lines-line k (b ∷ line) rest conf h fits =
    rw (fgets-line (readbuf_sz - 1) (b ∷ line) rest h fits)

no-newline_word : (w : List ℕ) → all_plain w ≡ true → has newline w ≡ false
unfolding is_delim
no-newline_word [] h = refl
no-newline_word (b ∷ w) h =
    let p = Plain-parts b w h in
    ground (arith, no_newline p.no_delim, no-newline_word w p.tail_plain)
  where
    no_newline : is_delim b ≡ false → (b == newline) ≡ false
    no_newline d = ground arith

no-newline-body : (ws : List (List ℕ)) → AllPlain ws → has newline (body ws) ≡ false
no-newline-body [] h = refl
no-newline-body (w ∷ ws) h =
    rw (has-append newline w (32 ∷ body ws), no-newline_word w h.1, no-newline-body ws h.2)

split_line :
    (l : Line) (ls : List Line)
    → file_text (l ∷ ls) ≡ (body l.words ++ comment_text l.comment) ++ newline ∷ file_text ls
split_line l ls = simp list_laws

no-newline_line :
    (l : Line) → IsLine l → has newline (body l.words ++ comment_text l.comment) ≡ false
no-newline_line l h = rw (
  has-append newline (body l.words) (comment_text l.comment),
  no-newline-body l.words h.plain,
  h.one_line,
)

end_of_file : (k : ℕ) (conf : Config) → parse_lines (suc k) [] conf ≡ some conf
unfolding parse_lines
end_of_file k conf = refl

parse_lines-meaning :
    (k : ℕ) (ls : List Line) (conf : Config)
    → AllLines ls
    → length ls < k
    → parse_lines k (file_text ls) conf ≡ some (file_meaning ls conf)
unfolding file_meaning
parse_lines-meaning zero ls conf h fuel = absurd (omega arith)
parse_lines-meaning (suc k) [] conf h fuel = end_of_file k conf
parse_lines-meaning (suc k) (l ∷ ls) conf h fuel =
    let text = body l.words ++ comment_text l.comment in
    ap (λ file. parse_lines (suc k) file conf) (split_line l ls)
    ∙ parse_lines-line k text (file_text ls) conf (no-newline_line l h.0) h.0.fits
    ∙ ap (λ line. parse_line line conf >>= parse_lines k (file_text ls))
        (append_assoc (body l.words) (comment_text l.comment) (newline ∷ []))
    ∙ rw (parse_line-meaning l.words l.comment conf h.0.plain, ◌>>=◌)
        (parse_lines-meaning k ls (meaning l.words conf) h.1 (omega arith))

length-file_text : (ls : List Line) → length ls ≤ length (file_text ls)
length-file_text [] = omega arith
length-file_text (l ∷ ls) = omega (
  arith,
  length-file_text ls,
  ap length (split_line l ls),
  length-append (body l.words ++ comment_text l.comment) (newline ∷ file_text ls),
)

-- What parse_config makes of a file, whose lines consist of words, each with a space behind it,
-- perhaps a comment, and a newline, and are shorter than the buffer, is what the specification says of its lines,
-- or `NULL` if a critical parameter is missing: it never faults, and reads the whole file.
pub parse_config-meaning :
    (ls : List Line)
    → AllLines ls
    → parse_config (some (file_text ls)) ≡ some (complete (file_meaning ls def_config))
unfolding parse_config
parse_config-meaning ls h = rw (
  parse_lines-meaning (suc (length (file_text ls))) ls def_config h
      (omega (arith, length-file_text ls)),
  ◌>>=◌,
)
