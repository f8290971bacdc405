-- ===== src/Services/Doctor/Counting.antt =====
-- `_parse_counts` of services/doctor_service.py: the sums of the numbers in front of "passed" and of
-- "failed". The regular expression is read as a machine over ASCII characters: a number, white space
-- and one of the two words. No word holds a digit, so a failed match goes on at the next character.
use grand_line.Common.{ℕ, ◌+◌, ◌-◌, ◌*◌, Bool, ◌&&◌, ◌||◌, [], ◌∷◌, ◌==◌, leb, if◌then◌else◌, Text}

-- Where the machine is in a match: nothing, a number, the space behind it, or a word whose letters
-- are still to come; `ends` tells the words apart.
pub data Mode : Type 0 where
  idle : Mode
  digits gap : ℕ → Mode
  passed_rest failed_rest : ℕ → Text → Mode

pub record Summary : Type 0 where
  pub mode : Mode
  pub passed_count : ℕ
  pub failed_count : ℕ

abbrev pub is_digit : ℕ → Bool
is_digit c = leb b'0' c && leb c b'9'

-- ASCII white space, as `\s` has it.
abbrev pub is_space : ℕ → Bool
is_space c = (c == 32) || (leb 9 c && leb c 13) || (leb 28 c && leb c 31)

-- A letter without its case.
abbrev pub lower : ℕ → ℕ
lower c = if leb b'A' c && leb c b'Z' then c + 32 else c

abbrev pub assed : Text
assed = b'a' ∷ b's' ∷ b's' ∷ b'e' ∷ b'd' ∷ []

abbrev pub ailed : Text
ailed = b'a' ∷ b'i' ∷ b'l' ∷ b'e' ∷ b'd' ∷ []

-- A character at which a match begins again, or does not.
abbrev pub restart : ℕ → Mode
restart c = if is_digit c then digits (c - b'0') else idle

abbrev pub set_mode : Mode → Summary → Summary
set_mode m s = record s { mode = m }

abbrev pub step : ℕ → Mode → Summary → Summary
step c idle s = set_mode (restart c) s
step c (digits n) s =
    set_mode
      (if is_digit c then digits (n * 10 + (c - b'0')) else if is_space c then gap n else idle) s
step c (gap n) s =
    set_mode
      (if is_space c
        then gap n
        else if lower c == b'p'
        then passed_rest n assed
        else if lower c == b'f'
        then failed_rest n ailed
        else restart c)
      s
step c (passed_rest n []) s = set_mode (restart c) s
step c (passed_rest n (l ∷ [])) s =
    if lower c == l
    then record s { mode = idle; passed_count = s.passed_count + n }
    else set_mode (restart c) s
step c (passed_rest n (l ∷ m ∷ ls)) s =
    set_mode (if lower c == l then passed_rest n (m ∷ ls) else restart c) s
step c (failed_rest n []) s = set_mode (restart c) s
step c (failed_rest n (l ∷ [])) s =
    if lower c == l
    then record s { mode = idle; failed_count = s.failed_count + n }
    else set_mode (restart c) s
step c (failed_rest n (l ∷ m ∷ ls)) s =
    set_mode (if lower c == l then failed_rest n (m ∷ ls) else restart c) s

unfoldable pub scan : Text → Summary → Summary
scan [] s = s
scan (c ∷ cs) s = scan cs (step c s.mode s)

abbrev pub nothing_read : Summary
nothing_read = record { mode = idle; passed_count = 0; failed_count = 0 }

-- Without any count the whole total has passed or failed.
abbrev pub or_total : Bool → ℕ → Summary → ℕ × ℕ
or_total passed total s =
    if (s.passed_count == 0) && (s.failed_count == 0)
    then (if passed then (total, 0) else (0, total))
    else (s.passed_count, s.failed_count)

unfoldable pub parse_summary : Text → Bool → ℕ → ℕ × ℕ
unfolding scan
parse_summary stdout passed total = or_total passed total (scan stdout nothing_read)
