-- ===== src/Dial/Value.antt =====
-- The values of a JSON column, as Python reads them back.
use grand_line.Common.{
  ℕ, String, Bool, true, false, not, ◌&&◌, List, [], ◌∷◌, ◌==◌, str_eq, if◌then◌else◌,
}

-- `negative n` is -(n + 1); `real` is a float by its text.
mutual
  pub data Value : Type 0 where
    null : Value
    bool : Bool → Value
    int : ℕ → Value
    negative : ℕ → Value
    real : String → Value
    str : String → Value
    arr : Items → Value
    dict : Fields → Value

  pub data Items : Type 0 where
    nil : Items
    cons : Value → Items → Items

  pub data Fields : Type 0 where
    end : Fields
    field : String → Value → Fields → Fields

-- `d.get(key)`: a missing key is `None`.
abbrev pub get : String → Fields → Value
get k end = null
get k (field j v fs) = if str_eq j k then v else get k fs

abbrev pub items : Items → List Value
items nil = []
items (cons v vs) = v ∷ items vs

-- `if v`; the texts "0.0" and "-0.0" stand for the two zeros.
abbrev pub is_truthy : Value → Bool
is_truthy null = false
is_truthy (bool b) = b
is_truthy (int n) = not (n == 0)
is_truthy (negative n) = true
is_truthy (real s) = not (str_eq s "0.0") && not (str_eq s "-0.0")
is_truthy (str s) = not (str_eq s "")
is_truthy (arr nil) = false
is_truthy (arr (cons _ _)) = true
is_truthy (dict end) = false
is_truthy (dict (field _ _ _)) = true

-- A list or a dictionary cannot be looked up in a set or a dictionary: `TypeError`.
abbrev pub is_hashable : Value → Bool
is_hashable (arr _) = false
is_hashable (dict _) = false
is_hashable _ = true
