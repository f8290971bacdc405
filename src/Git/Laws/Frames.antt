-- ===== src/Git/Laws/Frames.antt =====
-- Operations that only run commands: the rows of the service and the sandboxes stay.
use grand_line.Common.{
  ℕ, ◌≡◌, refl, ◌∙◌, ap, Bool, true, false, Option, none, some, List, [], ◌∷◌, ◌++◌, Bool-cases,
  inl, inr, Text,
}
use grand_line.Services.Shipwright.Iteration.{is_zero}
use grand_line.Git.Desk.{
  GitError, Outcome, returns, raises, Output, Call, created, executed, destroyed, destroy_raised,
  Backend, Desk, Session, ◌>>=◌, ◌>>◌, pure, ensure, sandbox_or_raise, get_sandbox, lookup,
  execute_in, stdout_or_raise, run, run_unchecked,
}

-- The sandboxes that were created, and those for which a destroy was tried, whether it returned or
-- raised.
abbrev pub created_in : List Call → List ℕ
created_in [] = []
created_in (created s ∷ cs) = s ∷ created_in cs
created_in (executed s command files ∷ cs) = created_in cs
created_in (destroyed s ∷ cs) = created_in cs
created_in (destroy_raised s ∷ cs) = created_in cs

abbrev pub ended_in : List Call → List ℕ
ended_in [] = []
ended_in (created s ∷ cs) = ended_in cs
ended_in (executed s command files ∷ cs) = ended_in cs
ended_in (destroyed s ∷ cs) = s ∷ ended_in cs
ended_in (destroy_raised s ∷ cs) = s ∷ ended_in cs

-- Nothing but commands lies between the two.
pub record Quiet (d d' : Desk) : Type 0 where
  pub same_repos : d'.repos ≡ d.repos
  pub same_urls : d'.repo_urls ≡ d.repo_urls
  pub same_created : created_in d'.calls ≡ created_in d.calls
  pub same_ended : ended_in d'.calls ≡ ended_in d.calls

pub Quiet-refl : (d : Desk) → Quiet d d
Quiet-refl d = record {
  same_repos = refl;
  same_urls = refl;
  same_created = refl;
  same_ended = refl;
}

Quiet-then : {a b c : Desk} → Quiet a b → Quiet b c → Quiet a c
Quiet-then p q = record {
  same_repos = q.same_repos ∙ p.same_repos;
  same_urls = q.same_urls ∙ p.same_urls;
  same_created = q.same_created ∙ p.same_created;
  same_ended = q.same_ended ∙ p.same_ended;
}

created_in-executed :
    (cs : List Call) (s : ℕ) (command : Text) (files : List (Text × Text))
    → created_in (cs ++ executed s command files ∷ []) ≡ created_in cs
created_in-executed [] s command files = refl
created_in-executed (created t ∷ cs) s command files =
    ap (λ xs. t ∷ xs) (created_in-executed cs s command files)
created_in-executed (executed t c fs ∷ cs) s command files = created_in-executed cs s command files
created_in-executed (destroyed t ∷ cs) s command files = created_in-executed cs s command files
created_in-executed (destroy_raised t ∷ cs) s command files = created_in-executed cs s command files

ended_in-executed :
    (cs : List Call) (s : ℕ) (command : Text) (files : List (Text × Text))
    → ended_in (cs ++ executed s command files ∷ []) ≡ ended_in cs
ended_in-executed [] s command files = refl
ended_in-executed (created t ∷ cs) s command files = ended_in-executed cs s command files
ended_in-executed (executed t c fs ∷ cs) s command files = ended_in-executed cs s command files
ended_in-executed (destroyed t ∷ cs) s command files =
    ap (λ xs. t ∷ xs) (ended_in-executed cs s command files)
ended_in-executed (destroy_raised t ∷ cs) s command files =
    ap (λ xs. t ∷ xs) (ended_in-executed cs s command files)

-- A session that only runs commands, from every state.
abbrev pub IsQuiet : {A : Type 0} → Session A → Type 0
IsQuiet m = (d : Desk) → Quiet d (m d).1

pub pure-IsQuiet : {A : Type 0} (a : A) → IsQuiet (pure a)
pure-IsQuiet a d = Quiet-refl d

result-IsQuiet :
    {A B : Type 0} (r : Outcome A) (v d : Desk) (f : A → Session B)
    → Quiet d v
    → ((a : A) → IsQuiet (f a))
    → Quiet d (((λ (u : Desk). (r, v)) >>= f) d).1
unfolding ◌>>=◌
result-IsQuiet (returns a) v d f h k = Quiet-then h (k a v)
result-IsQuiet (raises e) v d f h k = h

pub bind-IsQuiet :
    {A B : Type 0} (m : Session A) (f : A → Session B)
    → IsQuiet m
    → ((a : A) → IsQuiet (f a))
    → IsQuiet (m >>= f)
unfolding ◌>>=◌
bind-IsQuiet m f h k d = result-IsQuiet (m d).0 (m d).1 d f (h d) k

pub then-IsQuiet :
    {A B : Type 0} (m : Session A) (k : Session B) → IsQuiet m → IsQuiet k → IsQuiet (m >> k)
unfolding ◌>>◌
then-IsQuiet m k h g = bind-IsQuiet m (λ _. k) h (λ _. g)

pub ensure-IsQuiet : (b : Bool) (e : GitError) → IsQuiet (ensure b e)
ensure-IsQuiet true e = pure-IsQuiet tt
ensure-IsQuiet false e = Quiet-refl

sandbox_or_raise-IsQuiet : (o : Option ℕ) → IsQuiet (sandbox_or_raise o)
sandbox_or_raise-IsQuiet none = Quiet-refl
sandbox_or_raise-IsQuiet (some s) = pure-IsQuiet s

pub get_sandbox-IsQuiet : (voyage_id : ℕ) → IsQuiet (get_sandbox voyage_id)
get_sandbox-IsQuiet voyage_id d = sandbox_or_raise-IsQuiet (lookup voyage_id d.repos) d

module _ (backend : Backend) where
  pub execute_in-IsQuiet :
      (s : ℕ) (command : Text) (files : List (Text × Text))
      → IsQuiet (execute_in backend s command files)
  execute_in-IsQuiet s command files d = record {
    same_repos = refl;
    same_urls = refl;
    same_created = created_in-executed d.calls s command files;
    same_ended = ended_in-executed d.calls s command files;
  }

  stdout_or_raise-IsQuiet : (r : Output) → IsQuiet (stdout_or_raise backend r)
  stdout_or_raise-IsQuiet r d = elim (Bool-cases (is_zero r.exit_code)) [
    | inl e ↦ rw e (Quiet-refl d)
    | inr e ↦ rw e (Quiet-refl d)
  ]

  pub run-IsQuiet : (s : ℕ) (command : Text) → IsQuiet (run backend s command)
  unfolding run
  run-IsQuiet s command =
      bind-IsQuiet (execute_in backend s command []) (stdout_or_raise backend)
        (execute_in-IsQuiet s command []) stdout_or_raise-IsQuiet

  pub run_unchecked-IsQuiet : (s : ℕ) (command : Text) → IsQuiet (run_unchecked backend s command)
  unfolding run_unchecked
  run_unchecked-IsQuiet s command =
      bind-IsQuiet (execute_in backend s command []) (λ r. pure r.stdout)
        (execute_in-IsQuiet s command []) (λ r. pure-IsQuiet r.stdout)
