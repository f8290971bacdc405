-- ===== src/Git/Laws/Accounting.antt =====
-- A clone, a cleanup and any other operation on the rows of the service.
use grand_line.Common.{
  ℕ, ◌≡◌, refl, sym, ◌∙◌, ap, Bool, true, false, ◌||◌, Option, none, some, List, [], ◌∷◌, ◌++◌,
  ◌==◌, arith, any_by, all_by, contains, ==_refl, Bool-cases, inl, inr, if◌then◌else◌,
}
use grand_line.Git.Desk.{
  Outcome, returns, raises, Call, created, executed, destroyed, destroy_raised, destroy_call, Desk,
  lookup, put, without, is_in,
}
use grand_line.Git.Laws.Frames.{created_in, ended_in, Quiet}

-- A sandbox of a voyage.
abbrev pub registered : ℕ → List (ℕ × ℕ) → Bool
registered s rows = any_by (λ (row : ℕ × ℕ). row.1 == s) rows

abbrev pub is_kept : List (ℕ × ℕ) → List ℕ → ℕ → Bool
is_kept rows gone s = registered s rows || contains s gone

abbrev pub all_kept : List (ℕ × ℕ) → List ℕ → List ℕ → Bool
all_kept rows gone made = all_by (is_kept rows gone) made

abbrev pub keys : {A : Type 0} → List (ℕ × A) → List ℕ
keys [] = []
keys ((k, a) ∷ rows) = k ∷ keys rows

-- Each sandbox that was created is that of a voyage, or its destroy was tried, and the voyages with a
-- sandbox are those with a URL.
abbrev pub Tracked : Desk → Type 0
Tracked d =
    (all_kept d.repos (ended_in d.calls) (created_in d.calls) ≡ true)
    × (keys d.repos ≡ keys d.repo_urls)

pub all_by-weaken :
    (p q : ℕ → Bool) (xs : List ℕ)
    → ((x : ℕ) → p x ≡ true → q x ≡ true)
    → all_by p xs ≡ true
    → all_by q xs ≡ true
all_by-weaken p q [] k h = refl
all_by-weaken p q (x ∷ xs) k h = ground (arith, k x, all_by-weaken p q xs k)

pub all_by-snoc :
    (p : ℕ → Bool) (xs : List ℕ) (x : ℕ)
    → all_by p xs ≡ true
    → p x ≡ true
    → all_by p (xs ++ x ∷ []) ≡ true
all_by-snoc p [] x h k = ground arith
all_by-snoc p (y ∷ xs) x h k = ground (arith, all_by-snoc p xs x)

pub created_in-created :
    (cs : List Call) (s : ℕ) → created_in (cs ++ created s ∷ []) ≡ created_in cs ++ s ∷ []
created_in-created [] s = refl
created_in-created (created t ∷ cs) s = ap (λ xs. t ∷ xs) (created_in-created cs s)
created_in-created (executed t c fs ∷ cs) s = created_in-created cs s
created_in-created (destroyed t ∷ cs) s = created_in-created cs s
created_in-created (destroy_raised t ∷ cs) s = created_in-created cs s

pub ended_in-created : (cs : List Call) (s : ℕ) → ended_in (cs ++ created s ∷ []) ≡ ended_in cs
ended_in-created [] s = refl
ended_in-created (created t ∷ cs) s = ended_in-created cs s
ended_in-created (executed t c fs ∷ cs) s = ended_in-created cs s
ended_in-created (destroyed t ∷ cs) s = ap (λ xs. t ∷ xs) (ended_in-created cs s)
ended_in-created (destroy_raised t ∷ cs) s = ap (λ xs. t ∷ xs) (ended_in-created cs s)

pub created_in-destroy_call :
    (o : Outcome Unit) (cs : List Call) (s : ℕ)
    → created_in (cs ++ destroy_call o s ∷ []) ≡ created_in cs
created_in-destroy_call (returns _) [] s = refl
created_in-destroy_call (raises e) [] s = refl
created_in-destroy_call o (created t ∷ cs) s = ap (λ xs. t ∷ xs) (created_in-destroy_call o cs s)
created_in-destroy_call o (executed t c fs ∷ cs) s = created_in-destroy_call o cs s
created_in-destroy_call o (destroyed t ∷ cs) s = created_in-destroy_call o cs s
created_in-destroy_call o (destroy_raised t ∷ cs) s = created_in-destroy_call o cs s

pub ended_in-destroy_call :
    (o : Outcome Unit) (cs : List Call) (s : ℕ)
    → ended_in (cs ++ destroy_call o s ∷ []) ≡ ended_in cs ++ s ∷ []
ended_in-destroy_call (returns _) [] s = refl
ended_in-destroy_call (raises e) [] s = refl
ended_in-destroy_call o (created t ∷ cs) s = ended_in-destroy_call o cs s
ended_in-destroy_call o (executed t c fs ∷ cs) s = ended_in-destroy_call o cs s
ended_in-destroy_call o (destroyed t ∷ cs) s = ap (λ xs. t ∷ xs) (ended_in-destroy_call o cs s)
ended_in-destroy_call o (destroy_raised t ∷ cs) s = ap (λ xs. t ∷ xs) (ended_in-destroy_call o cs s)

pub contains-last : (xs : List ℕ) (s : ℕ) → contains s (xs ++ s ∷ []) ≡ true
contains-last [] s = ground (arith, ==_refl s)
contains-last (x ∷ xs) s = ground (arith, contains-last xs s)

pub contains-snoc :
    (xs : List ℕ) (s t : ℕ) → contains t xs ≡ true → contains t (xs ++ s ∷ []) ≡ true
contains-snoc [] s t h = ground arith
contains-snoc (x ∷ xs) s t h = ground (arith, contains-snoc xs s t)

-- Rows of a voyage that had none.
pub registered-put : (v s : ℕ) (rows : List (ℕ × ℕ)) → registered s (put v s rows) ≡ true
registered-put v s [] = ground (arith, ==_refl s)
registered-put v s ((w, t) ∷ rows) = ground (arith, ==_refl s, registered-put v s rows)

pub registered-put_other :
    (v s t : ℕ) (rows : List (ℕ × ℕ))
    → is_in v rows ≡ false
    → registered t rows ≡ true
    → registered t (put v s rows) ≡ true
registered-put_other v s t [] n h = ground arith
registered-put_other v s t ((w, u) ∷ rows) n h = ground (arith, registered-put_other v s t rows)

-- A sandbox outside of the row that is taken.
abbrev pub is_taken : ℕ → Option ℕ → Bool
is_taken t none = false
is_taken t (some s) = s == t

pub registered-without :
    (v t : ℕ) (rows : List (ℕ × ℕ))
    → registered t rows ≡ true
    → (registered t (without v rows) || is_taken t (lookup v rows)) ≡ true
registered-without v t [] h = ground arith
registered-without v t ((w, u) ∷ rows) h = ground (arith, registered-without v t rows)

abbrev pub put_key : ℕ → List ℕ → List ℕ
put_key k [] = k ∷ []
put_key k (j ∷ js) = let rest = put_key k js in if j == k then k ∷ js else j ∷ rest

abbrev pub without_key : ℕ → List ℕ → List ℕ
without_key k [] = []
without_key k (j ∷ js) = let rest = without_key k js in if j == k then js else j ∷ rest

pub keys-put :
    {A : Type 0} (k : ℕ) (a : A) (rows : List (ℕ × A)) → keys (put k a rows) ≡ put_key k (keys rows)
keys-put k a [] = refl
keys-put k a ((j, b) ∷ rows) = elim (Bool-cases (j == k)) [
  | inl e ↦ rw e refl
  | inr e ↦ rw e (ap (λ js. j ∷ js) (keys-put k a rows))
]

pub keys-without :
    {A : Type 0} (k : ℕ) (rows : List (ℕ × A)) → keys (without k rows) ≡ without_key k (keys rows)
keys-without k [] = refl
keys-without k ((j, b) ∷ rows) = elim (Bool-cases (j == k)) [
  | inl e ↦ rw e refl
  | inr e ↦ rw e (ap (λ js. j ∷ js) (keys-without k rows))
]

-- Commands change nothing about it.
pub Tracked-Quiet : {d d' : Desk} → Quiet d d' → Tracked d → Tracked d'
Tracked-Quiet q (h, k) = (
  rw (q.same_repos, q.same_created, q.same_ended) h,
  ap keys q.same_repos ∙ k ∙ sym (ap keys q.same_urls),
)
