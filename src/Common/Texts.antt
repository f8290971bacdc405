-- ===== src/Common/Texts.antt =====
-- Texts that the code measures or cuts: a text is the list of its code points.
use Prim.Native.Char.{code}
use Prim.Native.String.{String}
use Prim.Native.Nat.{ℕ, zero, suc, ◌+◌, ◌-◌}
use mathlib.Core.Bool.{Bool, true, false, ◌&&◌}
use mathlib.Core.List.{List, [], ◌∷◌}
use grand_line.Common.Tests.{if◌then◌else◌, ◌==◌}
use grand_line.Common.Lists.{length}

abbrev pub Text : Type 0
Text = List ℕ

abbrev pub drop : ℕ → Text → Text
drop zero xs = xs
drop (suc n) [] = []
drop (suc n) (x ∷ xs) = drop n xs

-- `xs[-n:]`
abbrev pub last_n : ℕ → Text → Text
last_n n xs = drop (length xs - n) xs

abbrev pub starts_with : Text → Text → Bool
starts_with [] xs = true
starts_with (p ∷ ps) [] = false
starts_with (p ∷ ps) (x ∷ xs) = (p == x) && starts_with ps xs

-- `xs.count(p)` for a text `p` of which no end is also a beginning.
abbrev pub count : Text → Text → ℕ
count p [] = 0
count p (x ∷ xs) = (if starts_with p (x ∷ xs) then 1 else 0) + count p xs

-- The code points of a text.
abbrev pub codes : String → Text
codes String.[] = []
codes (String.◌∷◌ c s) = code c ∷ codes s
