-- ===== src/Git/Shell.antt =====
-- `shlex.quote` of the standard library, which services/git_service.py puts around every text of a
-- caller, and an independent reader of what a POSIX shell makes of a command.
pub mod Laws
use grand_line.Common.{
  ℕ, Bool, true, false, not, ◌&&◌, ◌||◌, Option, none, some, List, [], ◌∷◌, ◌++◌, ◌==◌, leb,
  if◌then◌else◌, all_by, contains, Text,
}

-- `[\w@%+=:,./-]` with re.ASCII
abbrev pub is_safe : ℕ → Bool
is_safe c =
    (leb b'a' c && leb c b'z')
    || (leb b'A' c && leb c b'Z')
    || (leb b'0' c && leb c b'9')
    || contains c (b'_' ∷ b'@' ∷ b'%' ∷ b'+' ∷ b'=' ∷ b':' ∷ b',' ∷ b'.' ∷ b'/' ∷ b'-' ∷ [])

abbrev pub single : ℕ
single = 39

abbrev pub double : ℕ
double = 34

-- `s.replace("'", "'\"'\"'")`
abbrev pub escape : Text → Text
escape [] = []
escape (c ∷ cs) =
    let rest = escape cs in
    if c == single then single ∷ double ∷ single ∷ double ∷ single ∷ rest else c ∷ rest

unfoldable pub quote : Text → Text
quote [] = single ∷ single ∷ []
quote (c ∷ cs) = if all_by is_safe (c ∷ cs) then c ∷ cs else single ∷ escape (c ∷ cs) ++ single ∷ []

-- What a character means outside of quotes: `live` ones are operators, expansions and patterns.
pub data Kind : Type 0 where
  ordinary blank opens_single opens_double live : Kind

abbrev pub live_characters : List ℕ
live_characters =
    b'|' ∷ b'&' ∷ b';' ∷ b'<' ∷ b'>' ∷ b'(' ∷ b')' ∷ b'$' ∷ b'`' ∷ b'\\' ∷ b'*' ∷ b'?' ∷ b'[' ∷ b']'
    ∷ b'#' ∷ b'~' ∷ b'!' ∷ b'{' ∷ b'}' ∷ b'^' ∷ 10 ∷ 13 ∷ []

abbrev pub kind_of : ℕ → Kind
kind_of c =
    if (c == 32) || (c == 9)
    then blank
    else if c == single
    then opens_single
    else if c == double
    then opens_double
    else if contains c live_characters
    then live
    else ordinary

-- What stands in a command: words, and characters that the shell acts on.
pub data Token : Type 0 where
  word : Text → Token
  acts : ℕ → Token

pub data QuoteMode : Type 0 where
  plain in_single in_double : QuoteMode

-- The tokens read so far, the word that is being read, if any, and the quotes around it.
pub record Reader : Type 0 where
  pub mode : QuoteMode
  pub current : Option Text
  pub tokens : List Token

abbrev pub text_of : Option Text → Text
text_of none = []
text_of (some w) = w

abbrev pub extended : ℕ → Option Text → Option Text
extended c w = some (text_of w ++ c ∷ [])

abbrev pub finished : Option Text → List Token → List Token
finished none ts = ts
finished (some w) ts = ts ++ word w ∷ []

abbrev pub read_plain : Kind → ℕ → Reader → Reader
read_plain ordinary c r = record r { current = extended c r.current }
read_plain blank c r = record r { current = none; tokens = finished r.current r.tokens }
read_plain opens_single c r = record r { mode = in_single; current = some (text_of r.current) }
read_plain opens_double c r = record r { mode = in_double; current = some (text_of r.current) }
read_plain live c r = record r {
  current = none;
  tokens = finished r.current r.tokens ++ acts c ∷ [];
}

-- Between double quotes `$`, a backquote and a backslash are live.
abbrev pub read_one : QuoteMode → ℕ → Reader → Reader
read_one plain c r = read_plain (kind_of c) c r
read_one in_single c r =
    if c == single then record r { mode = plain } else record r { current = extended c r.current }
read_one in_double c r =
    if c == double
    then record r { mode = plain }
    else (if contains c (b'$' ∷ b'`' ∷ b'\\' ∷ [])
        then record r { tokens = finished r.current r.tokens ++ acts c ∷ []; current = none }
        else record r { current = extended c r.current })

unfoldable pub read : Text → Reader → Reader
read [] r = r
read (c ∷ cs) r = read cs (read_one r.mode c r)

abbrev pub unread : Reader
unread = record { mode = plain; current = none; tokens = [] }

-- A quote that is not closed is an error, which `acts 0` stands for.
abbrev pub close : QuoteMode → List Token → List Token
close plain ts = ts
close _ ts = ts ++ acts 0 ∷ []

unfoldable pub shell_tokens : Text → List Token
unfolding read
shell_tokens command = let r = read command unread in close r.mode (finished r.current r.tokens)
