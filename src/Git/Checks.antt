-- ===== src/Git/Checks.antt =====
-- The checks of services/git_service.py on names, paths and hosts, and the URL with a token.
-- `urlparse` of the standard library is a parameter.
pub mod Laws
use grand_line.Common.{
  ℕ, Bool, true, false, not, ◌&&◌, ◌||◌, Option, none, some, List, [], ◌∷◌, ◌++◌, ◌==◌, leb,
  if◌then◌else◌, all_by, any_by, map, contains, Text, starts_with, codes,
}
use grand_line.Services.Doctor.Counting.{lower}
use grand_line.Services.Paths.{split_slash, same_text, dot_dot, slash}

-- `[a-zA-Z0-9/_.\-]`
abbrev pub is_name_character : ℕ → Bool
is_name_character c =
    (leb b'a' c && leb c b'z')
    || (leb b'A' c && leb c b'Z')
    || (leb b'0' c && leb c b'9')
    || contains c (b'/' ∷ b'_' ∷ b'.' ∷ b'-' ∷ [])

-- `+$` of a regular expression: one character or more up to the end, or up to a line feed at the end.
abbrev pub name_to_end : Text → Bool
name_to_end [] = false
name_to_end (c ∷ []) = is_name_character c
name_to_end (c ∷ d ∷ []) = is_name_character c && (is_name_character d || (d == 10))
name_to_end (c ∷ d ∷ e ∷ cs) = is_name_character c && name_to_end (d ∷ e ∷ cs)

-- `BRANCH_NAME_RE.match`
unfoldable pub is_branch_name : Text → Bool
is_branch_name value = name_to_end value

-- `_validate_repo_path`, whether the path is accepted.
unfoldable pub is_repo_path : Text → Bool
is_repo_path [] = false
is_repo_path (c ∷ cs) =
    not (starts_with (slash ∷ []) (c ∷ cs))
    && not (starts_with (b'~' ∷ []) (c ∷ cs))
    && not (any_by (λ p. same_text p dot_dot) (split_slash (c ∷ cs)))

-- What `urlparse` makes of a URL; a port 0 is no port.
pub record ParsedUrl : Type 0 where
  pub hostname : Option Text
  pub port : Option Text
  pub path : Text

-- `text or ""`
abbrev pub or_empty : Option Text → Text
or_empty none = []
or_empty (some t) = t

module _ (urlparse : Text → ParsedUrl) where
  -- `_validate_repo_host`
  unfoldable pub is_allowed_host : Text → List Text → Bool
  is_allowed_host repo_url allowed_hosts =
      let hostname = map lower (or_empty (urlparse repo_url).hostname) in
      any_by (λ h. same_text h hostname) allowed_hosts

  abbrev pub port_text : Option Text → Text
  port_text none = []
  port_text (some p) = b':' ∷ p

  -- `_inject_token`
  unfoldable pub inject_token : Text → Text → Text
  inject_token repo_url token =
      let parsed = urlparse repo_url in
      codes "https://x-access-token:"
      ++ token
      ++ b'@' ∷ or_empty parsed.hostname
      ++ port_text parsed.port
      ++ parsed.path
