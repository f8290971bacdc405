-- ===== src/Git/Reading.antt =====
-- What services/git_service.py reads from the output of git: lines, parts of lines, and the records of
-- schemas/git.py that it makes of them. White space and line ends are those of ASCII.
use grand_line.Common.{
  ℕ, zero, suc, Bool, true, false, ◌&&◌, ◌||◌, Option, none, some, List, [], ◌∷◌, ◌++◌, ◌==◌, leb,
  if◌then◌else◌, Text,
}
use grand_line.Services.Doctor.Counting.{is_space}
use grand_line.Services.Paths.{push_first}

abbrev pub is_star_or_blank : ℕ → Bool
is_star_or_blank c = (c == b'*') || (c == 32)

abbrev pub lstrip : (ℕ → Bool) → Text → Text
lstrip p [] = []
lstrip p (c ∷ cs) = let rest = lstrip p cs in if p c then rest else c ∷ cs

abbrev pub put_unless : Bool → ℕ → Text → Text
put_unless true c [] = []
put_unless _ c cs = c ∷ cs

abbrev pub rstrip : (ℕ → Bool) → Text → Text
rstrip p [] = []
rstrip p (c ∷ cs) = put_unless (p c) c (rstrip p cs)

-- `text.strip()`
abbrev pub strip : Text → Text
strip t = rstrip is_space (lstrip is_space t)

abbrev pub is_line_end : ℕ → Bool
is_line_end c = (leb 10 c && leb c 13) || (leb 28 c && leb c 30)

-- `text.splitlines()`: a carriage return takes the line feed behind it along.
abbrev pub lines_from : Bool → Text → List Text
lines_from after_return [] = []
lines_from after_return (c ∷ cs) =
    let rest = lines_from (c == 13) cs in
    if after_return && (c == 10)
    then rest
    else if is_line_end c
    then [] ∷ rest
    else push_first c rest

abbrev pub splitlines : Text → List Text
splitlines t = lines_from false t

-- `text.split(sep)`
abbrev pub split_by : ℕ → Text → List Text
split_by sep [] = [] ∷ []
split_by sep (c ∷ cs) =
    let rest = split_by sep cs in if c == sep then [] ∷ rest else push_first c rest

abbrev pub join_by : ℕ → List Text → Text
join_by sep [] = []
join_by sep (p ∷ []) = p
join_by sep (p ∷ q ∷ ps) = p ++ sep ∷ join_by sep (q ∷ ps)

abbrev pub limit_parts : ℕ → ℕ → List Text → List Text
limit_parts n sep [] = []
limit_parts zero sep (p ∷ ps) = join_by sep (p ∷ ps) ∷ []
limit_parts (suc n) sep (p ∷ ps) = p ∷ limit_parts n sep ps

-- `text.split(sep, n)`
abbrev pub split_at_most : ℕ → ℕ → Text → List Text
split_at_most n sep t = limit_parts n sep (split_by sep t)

abbrev pub last_part : Text → List Text → Text
last_part p [] = p
last_part p (q ∷ ps) = last_part q ps

abbrev pub take : ℕ → Text → Text
take zero t = []
take (suc n) [] = []
take (suc n) (c ∷ cs) = c ∷ take n cs

-- The records that the lines without blanks at their ends give; `none` skips a line.
abbrev pub from_lines : {A : Type 0} → (Text → Option A) → List Text → List A
from_lines f [] = []
from_lines f (l ∷ ls) =
    let rest = from_lines f ls in
    elim (strip l) [ [] ↦ rest | c ∷ cs ↦ elim (f (c ∷ cs)) [ none ↦ rest | some a ↦ a ∷ rest ] ]

pub record GitBranchInfo : Type 0 where
  pub name : Text
  pub is_current : Bool

pub record GitCommitInfo : Type 0 where
  pub sha : Text
  pub short_sha : Text
  pub message : Text
  pub author : Text
  pub timestamp : Text

pub record GitChangedFile : Type 0 where
  pub path : Text
  pub status : Text

pub record GitConflictInfo : Type 0 where
  pub has_conflicts : Bool
  pub conflicting_files : List Text

abbrev pub ends_with_star : Text → Bool
ends_with_star [] = false
ends_with_star (c ∷ []) = c == b'*'
ends_with_star (c ∷ d ∷ cs) = ends_with_star (d ∷ cs)

abbrev pub branch_of_line : Text → Option GitBranchInfo
branch_of_line line =
    some (record { name = strip (rstrip is_star_or_blank line); is_current = ends_with_star line })

-- The body of `list_branches` behind the command.
unfoldable pub read_branches : Text → List GitBranchInfo
read_branches stdout = from_lines branch_of_line (splitlines (strip stdout))

abbrev pub commit_of_parts : List Text → Option GitCommitInfo
commit_of_parts (sha ∷ short ∷ message ∷ author ∷ timestamp ∷ ps) = some (record {
  sha = sha;
  short_sha = short;
  message = message;
  author = author;
  timestamp = timestamp;
})
commit_of_parts _ = none

-- The body of `get_log` behind the command.
unfoldable pub read_log : Text → List GitCommitInfo
read_log stdout =
    from_lines (λ line. commit_of_parts (split_at_most 4 0 line)) (splitlines (strip stdout))

abbrev pub changed_of_parts : List Text → Option GitChangedFile
changed_of_parts [] = none
changed_of_parts (p ∷ []) = none
changed_of_parts (p ∷ q ∷ ps) = some (record { path = strip (last_part q ps); status = strip p })

-- The body of `list_changed_files` behind the command.
unfoldable pub read_changed_files : Text → List GitChangedFile
read_changed_files stdout =
    from_lines (λ line. changed_of_parts (split_by 9 line)) (splitlines stdout)

-- The commit that `git log -1` prints, for a message and an author.
abbrev pub commit_of_log : Text → Text → List Text → GitCommitInfo
commit_of_log message author [] = record {
  sha = [];
  short_sha = [];
  message = message;
  author = author;
  timestamp = [];
}
commit_of_log message author (sha ∷ []) = record {
  sha = sha;
  short_sha = take 7 sha;
  message = message;
  author = author;
  timestamp = [];
}
commit_of_log message author (sha ∷ short ∷ []) = record {
  sha = sha;
  short_sha = short;
  message = message;
  author = author;
  timestamp = [];
}
commit_of_log message author (sha ∷ short ∷ timestamp ∷ ps) = record {
  sha = sha;
  short_sha = short;
  message = message;
  author = author;
  timestamp = timestamp;
}

unfoldable pub read_commit : Text → Text → Text → GitCommitInfo
read_commit message author stdout = commit_of_log message author (split_at_most 2 32 (strip stdout))

-- `[f.strip() for f in out.strip().splitlines() if f.strip()]`
unfoldable pub read_conflicts : Text → List Text
read_conflicts out = from_lines (λ line. some line) (splitlines (strip out))
