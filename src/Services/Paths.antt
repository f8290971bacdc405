-- ===== src/Services/Paths.antt =====
-- `_validate_relative_path` of schemas/doctor.py, which schemas/shipwright.py uses too, with
-- `posixpath.normpath` of the standard library for a path that does not begin with a slash.
pub mod Laws
use grand_line.Common.{
  ℕ, Bool, true, false, not, ◌&&◌, ◌||◌, List, [], ◌∷◌, ◌++◌, ◌==◌, if◌then◌else◌, Text,
  starts_with,
}

abbrev pub slash : ℕ
slash = b'/'

abbrev pub same_text : Text → Text → Bool
same_text [] [] = true
same_text (x ∷ xs) (y ∷ ys) = (x == y) && same_text xs ys
same_text _ _ = false

-- The first part of a text that is split gets a character in front.
abbrev pub push_first : ℕ → List Text → List Text
push_first x [] = (x ∷ []) ∷ []
push_first x (p ∷ ps) = (x ∷ p) ∷ ps

-- `text.split("/")`
abbrev pub split_slash : Text → List Text
split_slash [] = [] ∷ []
split_slash (x ∷ xs) =
    let rest = split_slash xs in if x == slash then [] ∷ rest else push_first x rest

-- `"/".join(parts)`
abbrev pub join_slash : List Text → Text
join_slash [] = []
join_slash (p ∷ []) = p
join_slash (p ∷ q ∷ ps) = p ++ slash ∷ join_slash (q ∷ ps)

abbrev pub dot : Text
dot = b'.' ∷ []

abbrev pub dot_dot : Text
dot_dot = b'.' ∷ b'.' ∷ []

-- `new_comps[-1] == ".."`
abbrev pub ends_up : List Text → Bool
ends_up [] = false
ends_up (p ∷ []) = same_text p dot_dot
ends_up (p ∷ q ∷ ps) = ends_up (q ∷ ps)

-- `new_comps.pop()`
abbrev pub without_last : List Text → List Text
without_last [] = []
without_last (p ∷ []) = []
without_last (p ∷ q ∷ ps) = p ∷ without_last (q ∷ ps)

abbrev pub is_nil : List Text → Bool
is_nil [] = true
is_nil (p ∷ ps) = false

-- One component in the loop of `normpath`.
abbrev pub add_component : List Text → Text → List Text
add_component comps p =
    if same_text p [] || same_text p dot
    then comps
    else (if not (same_text p dot_dot) || is_nil comps || ends_up comps
        then comps ++ p ∷ []
        else without_last comps)

unfoldable pub norm_components : List Text → List Text → List Text
norm_components comps [] = comps
norm_components comps (p ∷ ps) = norm_components (add_component comps p) ps

-- `path or "."`
abbrev pub or_dot : Text → Text
or_dot [] = dot
or_dot (x ∷ xs) = x ∷ xs

unfoldable pub normpath : Text → Text
unfolding norm_components
normpath path = or_dot (join_slash (norm_components [] (split_slash path)))

-- `p in text`
abbrev pub occurs : Text → Text → Bool
occurs p [] = starts_with p []
occurs p (x ∷ xs) = starts_with p (x ∷ xs) || occurs p xs

abbrev pub has_char : ℕ → Text → Bool
has_char c [] = false
has_char c (x ∷ xs) = (x == c) || has_char c xs

abbrev pub first_part : List Text → Text
first_part [] = []
first_part (p ∷ ps) = p

-- Whether the path is accepted; each test that fails raises a `ValueError`.
unfoldable pub validate_relative_path : Text → Bool
unfolding normpath
validate_relative_path path =
    let normalized = normpath path in
    not (starts_with (slash ∷ []) path)
    && not (starts_with (b'\\' ∷ []) path)
    && not (has_char b':' (first_part (split_slash path)))
    && not (starts_with dot_dot normalized)
    && not (occurs (slash ∷ dot_dot ++ slash ∷ []) (slash ∷ normalized ++ slash ∷ []))
    && not (same_text normalized dot)
    && not (same_text normalized [])
