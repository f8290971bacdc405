-- ===== src/Git/Checks/Laws.antt =====
-- Accepted paths stay in the repository.
use grand_line.Common.{ℕ, suc, ◌≡◌, true, false, List, [], ◌∷◌, arith, any_by, Text}
use grand_line.Services.Paths.{split_slash, same_text, dot_dot}
use grand_line.Services.Paths.Laws.{stays_below}
use grand_line.Git.Checks.{is_repo_path}

without_up :
    (depth : ℕ) (ps : List Text)
    → any_by (λ p. same_text p dot_dot) ps ≡ false
    → stays_below depth ps ≡ true
without_up depth [] h = ground arith
without_up depth (p ∷ ps) h = ground (arith, without_up depth ps, without_up (suc depth) ps)

-- A walk along a path that `_validate_repo_path` accepts never leaves the repository.
pub is_repo_path-stays_below :
    (path : Text) → is_repo_path path ≡ true → stays_below 0 (split_slash path) ≡ true
unfolding is_repo_path
is_repo_path-stays_below [] h = ground arith
is_repo_path-stays_below (c ∷ cs) h = without_up 0 (split_slash (c ∷ cs)) (ground arith)
