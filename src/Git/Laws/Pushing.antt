-- ===== src/Git/Laws/Pushing.antt =====
-- What a shell makes of the command of a push.
use grand_line.Common.{ℕ, ◌≡◌, none, List, [], ◌∷◌, ◌++◌, Text, codes}
use grand_line.Git.Shell.{Token, word, acts, plain, Reader, shell_tokens}
use grand_line.Git.Desk.{Call, executed, Desk}

-- The tokens in front of the target.
abbrev pub push_words : List Token
push_words =
    word (codes "cd")
    ∷ word (codes "/workspace/repo")
    ∷ acts b'&'
    ∷ acts b'&'
    ∷ word (codes "git")
    ∷ word (codes "push")
    ∷ []

abbrev between_words : List Token → Reader
between_words ts = record { mode = plain; current = none; tokens = ts }

-- One command that was executed in a sandbox behind the calls before, with the tokens of its text.
abbrev pub Executes : ℕ → List Token → List Call → List Call → Type 0
Executes s ts before after =
    (cmd : Text) × (after ≡ before ++ executed s cmd [] ∷ []) × (shell_tokens cmd ≡ ts)
