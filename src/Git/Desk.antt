-- ===== src/Git/Desk.antt =====
-- The state of `GitService`, and `_run`, `_run_unchecked` and `_get_sandbox` of
-- services/git_service.py. The execution backend is a parameter: what it answers may depend on the calls
-- that it got.
use grand_line.Common.{
  ℕ, ℤ, Bool, true, false, Option, none, some, List, [], ◌∷◌, ◌++◌, ◌==◌, if◌then◌else◌, Text,
  String,
}
use grand_line.Services.Shipwright.Iteration.{is_zero}

pub data GitError : Type 0 where
  repo_not_cloned repo_already_cloned invalid_branch_name invalid_path disallowed_host : GitError
  git_command_failed : ℤ → GitError
  git_ref_unresolvable github_api_error : GitError
  -- What is raised by the backend or by the library behind it.
  other_error : String → GitError

pub data Outcome (A : Type 0) : Type 0 where
  returns : A → Outcome A
  raises : GitError → Outcome A

-- The fields of an `ExecutionResult` that the service reads.
pub record Output : Type 0 where
  pub exit_code : ℤ
  pub stdout : Text

-- A call of the backend: a sandbox that was created, a command with files, a destroy that returned, and
-- a destroy that raised.
pub data Call : Type 0 where
  created : ℕ → Call
  executed : ℕ → Text → List (Text × Text) → Call
  destroyed destroy_raised : ℕ → Call

pub record Backend : Type 0 where
  pub create : List Call → ℕ → Outcome ℕ
  pub execute : List Call → ℕ → Text → List (Text × Text) → Outcome Output
  pub destroy : List Call → ℕ → Outcome Unit

-- The call of `destroy` with this outcome.
abbrev pub destroy_call : Outcome Unit → ℕ → Call
destroy_call (returns _) sandbox_id = destroyed sandbox_id
destroy_call (raises e) sandbox_id = destroy_raised sandbox_id

-- `_repos` and `_repo_urls` by voyage, and the calls so far.
pub record Desk : Type 0 where
  pub repos : List (ℕ × ℕ)
  pub repo_urls : List (ℕ × Text)
  pub calls : List Call

abbrev pub Session : Type 0 → Type 0
Session A = Desk → Outcome A × Desk

infixl 5 ◌>>=◌ ◌>>◌
unfoldable pub ◌>>=◌ : {A B : Type 0} → Session A → (A → Session B) → Session B
◌>>=◌ m f d = let (r, d') = m d in elim r [ returns a ↦ f a d' | raises e ↦ (raises e, d') ]

unfoldable pub ◌>>◌ : {A B : Type 0} → Session A → Session B → Session B
m >> k = m >>= λ _. k

abbrev pub pure : {A : Type 0} → A → Session A
pure a d = (returns a, d)

abbrev pub throw : {A : Type 0} → GitError → Session A
throw e d = (raises e, d)

-- A check that raises when it fails.
abbrev pub ensure : Bool → GitError → Session Unit
ensure true e = pure tt
ensure false e = throw e

abbrev pub called : Call → Desk → Desk
called c d = record d { calls = d.calls ++ c ∷ [] }

-- `dict.get`
abbrev pub lookup : {A : Type 0} → ℕ → List (ℕ × A) → Option A
lookup k [] = none
lookup k ((j, a) ∷ rows) = let rest = lookup k rows in if j == k then some a else rest

-- `dict[k] = a`
abbrev pub put : {A : Type 0} → ℕ → A → List (ℕ × A) → List (ℕ × A)
put k a [] = (k, a) ∷ []
put k a ((j, b) ∷ rows) = let rest = put k a rows in if j == k then (k, a) ∷ rows else (j, b) ∷ rest

-- `dict.pop(k, None)`, on the dictionary.
abbrev pub without : {A : Type 0} → ℕ → List (ℕ × A) → List (ℕ × A)
without k [] = []
without k ((j, a) ∷ rows) = let rest = without k rows in if j == k then rows else (j, a) ∷ rest

abbrev pub is_in : {A : Type 0} → ℕ → List (ℕ × A) → Bool
is_in k rows = elim (lookup k rows) [ none ↦ false | some a ↦ true ]

-- `_get_sandbox`, for the sandbox that was found.
abbrev pub sandbox_or_raise : Option ℕ → Session ℕ
sandbox_or_raise none = throw repo_not_cloned
sandbox_or_raise (some sandbox_id) = pure sandbox_id

abbrev pub get_sandbox : ℕ → Session ℕ
get_sandbox voyage_id d = sandbox_or_raise (lookup voyage_id d.repos) d

module _ (backend : Backend) where
  -- `self._backend.execute`
  abbrev pub execute_in : ℕ → Text → List (Text × Text) → Session Output
  execute_in sandbox_id command files d = (
    backend.execute d.calls sandbox_id command files,
    called (executed sandbox_id command files) d,
  )

  abbrev pub stdout_or_raise : Output → Session Text
  stdout_or_raise r =
      if is_zero r.exit_code then pure r.stdout else throw (git_command_failed r.exit_code)

  -- `_run`
  unfoldable pub run : ℕ → Text → Session Text
  run sandbox_id command = execute_in sandbox_id command [] >>= stdout_or_raise

  -- `_run_unchecked`, of which the callers read the text only.
  unfoldable pub run_unchecked : ℕ → Text → Session Text
  run_unchecked sandbox_id command = execute_in sandbox_id command [] >>= λ r. pure r.stdout
