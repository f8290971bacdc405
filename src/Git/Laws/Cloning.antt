-- ===== src/Git/Laws/Cloning.antt =====
-- A clone that fails tries to destroy its sandbox, and one that succeeds registers it.
use grand_line.Common.{
  ℕ, ◌≡◌, ◌⊎◌, refl, sym, ◌∙◌, ap, Bool, true, false, not, ◌||◌, Option, List, [], ◌∷◌, ◌++◌, arith,
  Text, inl, inr, contains,
}
use grand_line.Git.Checks.{ParsedUrl, is_allowed_host}
use grand_line.Git.Desk.{
  GitError, repo_already_cloned, disallowed_host, Outcome, returns, raises, created, Backend, Desk,
  Session, ◌>>=◌, ◌>>◌, ensure, called, put, is_in,
}
use grand_line.Git.Service.{
  Settings, hosts_of, sandbox_made, create_sandbox, clone_steps, register_clone, clone_into,
  clone_repo,
}
use grand_line.Git.Laws.Frames.{created_in, ended_in, Quiet}
use grand_line.Git.Laws.Operations.{clone_steps-IsQuiet}
use grand_line.Git.Laws.Accounting.{
  registered, is_kept, all_kept, keys, Tracked, all_by-weaken, all_by-snoc, created_in-created,
  ended_in-created, created_in-destroy_call, ended_in-destroy_call, contains-last, contains-snoc,
  registered-put, registered-put_other, put_key, keys-put,
}

-- All sandboxes but `s` are accounted for, and the voyage has none.
abbrev Open : ℕ → ℕ → Desk → Type 0
Open v s d =
    (created : List ℕ) × (created_in d.calls ≡ created ++ s ∷ [])
    × (all_kept d.repos (ended_in d.calls) created ≡ true)
    × (keys d.repos ≡ keys d.repo_urls)
    × (is_in v d.repos ≡ false)

Open-Quiet : (v s : ℕ) {d d' : Desk} → Quiet d d' → Open v s d → Open v s d'
Open-Quiet v s q (made, c, h, k, n) = (
  made,
  q.same_created ∙ c,
  rw (q.same_repos, q.same_ended) h,
  ap keys q.same_repos ∙ k ∙ sym (ap keys q.same_urls),
  rw q.same_repos n,
)

Open-created :
    (v s : ℕ) (d : Desk) → Tracked d → is_in v d.repos ≡ false → Open v s (called (created s) d)
Open-created v s d (h, k) n =
    (created_in d.calls, created_in-created d.calls s, rw (ended_in-created d.calls s) h, k, n)

pub or-cases : (a b : Bool) → (a || b) ≡ true → (a ≡ true) ⊎ (b ≡ true)
or-cases true b h = inl refl
or-cases false b h = inr h

pub or-left : (a b : Bool) → a ≡ true → (a || b) ≡ true
or-left a b h = ground arith

pub or-right : (a b : Bool) → b ≡ true → (a || b) ≡ true
or-right a b h = ground arith

not-true : (b : Bool) → not b ≡ true → b ≡ false
not-true b h = ground arith

ensure-then :
    {A : Type 0} (b : Bool) (e : GitError) (m : Session A) (d : Desk)
    → Tracked d
    → (b ≡ true → Tracked (m d).1)
    → Tracked ((ensure b e >> m) d).1
unfolding ◌>>=◌ ◌>>◌
ensure-then true e m d h k = k refl
ensure-then false e m d h k = h

module _ (backend : Backend) (urlparse : Text → ParsedUrl) (settings : Settings)
    (hex decimal : ℕ → Text) where
  register_clone-Tracked :
      (v s : ℕ) (url : Text) (r : Outcome Text) (d : Desk)
      → Open v s d
      → Tracked (register_clone backend urlparse settings hex decimal v s url r d).1
  unfolding register_clone
  register_clone-Tracked v s url (returns out) d (made, c, h, k, n) = (
    rw c (
        all_by-snoc (is_kept (put v s d.repos) (ended_in d.calls)) made s
          (all_by-weaken (is_kept d.repos (ended_in d.calls)) _ made
            (λ t e. elim (or-cases (registered t d.repos) (contains t (ended_in d.calls)) e) [
              | inl p ↦ or-left _ _ (registered-put_other v s t d.repos n p)
              | inr p ↦ or-right _ _ p
            ])
            h)
          (or-left _ _ (registered-put v s d.repos))),
    keys-put v s d.repos ∙ ap (put_key v) k ∙ sym (keys-put v url d.repo_urls),
  )
  register_clone-Tracked v s url (raises e) d (made, c, h, k, n) = (
    rw
        (
          created_in-destroy_call (backend.destroy d.calls s) d.calls s,
          ended_in-destroy_call (backend.destroy d.calls s) d.calls s,
          c,
        )
        (all_by-snoc (is_kept d.repos (ended_in d.calls ++ s ∷ [])) made s
          (all_by-weaken (is_kept d.repos (ended_in d.calls)) _ made
            (λ t e. elim (or-cases (registered t d.repos) (contains t (ended_in d.calls)) e) [
              | inl p ↦ or-left _ _ p
              | inr p ↦ or-right _ _ (contains-snoc (ended_in d.calls) s t p)
            ])
            h)
          (or-right _ _ (contains-last (ended_in d.calls) s))),
    k,
  )

  clone_into-Tracked :
      (v s : ℕ) (url : Text) (token : Option Text) (d : Desk)
      → Open v s d
      → Tracked (clone_into backend urlparse settings hex decimal v url token s d).1
  unfolding clone_into
  clone_into-Tracked v s url token d h =
      let (r, d') = clone_steps backend urlparse settings hex decimal s url token d in
      register_clone-Tracked v s url r d'
        (Open-Quiet v s (clone_steps-IsQuiet backend urlparse settings hex decimal s url token d) h)

  made_then-Tracked :
      (v : ℕ) (url : Text) (token : Option Text) (o : Outcome ℕ) (d : Desk)
      → Tracked d
      → is_in v d.repos ≡ false
      → Tracked
          ((sandbox_made backend urlparse settings hex decimal o
              >>= clone_into backend urlparse settings hex decimal v url token)
            d).1
  unfolding ◌>>=◌
  made_then-Tracked v url token (returns s) d h n =
      clone_into-Tracked v s url token (called (created s) d) (Open-created v s d h n)
  made_then-Tracked v url token (raises e) d h n = h

  create_then-Tracked :
      (v user : ℕ) (url : Text) (token : Option Text) (d : Desk)
      → Tracked d
      → is_in v d.repos ≡ false
      → Tracked
          ((create_sandbox backend urlparse settings hex decimal user
              >>= clone_into backend urlparse settings hex decimal v url token)
            d).1
  unfolding ◌>>=◌
  create_then-Tracked v user url token d h n =
      made_then-Tracked v url token (backend.create d.calls user) d h n

  pub clone_repo-Tracked :
      (v user : ℕ) (url : Text) (token : Option Text) (d : Desk)
      → Tracked d
      → Tracked (clone_repo backend urlparse settings hex decimal v user url token d).1
  unfolding clone_repo
  clone_repo-Tracked v user url token d h =
      let allowed = hosts_of settings.git_allowed_hosts in
      let create =
        create_sandbox backend urlparse settings hex decimal user
        >>= clone_into backend urlparse settings hex decimal v url token in
      ensure-then (not (is_in v d.repos)) repo_already_cloned
        (ensure (is_allowed_host urlparse url allowed) disallowed_host >> create) d h
        (λ n.
          ensure-then (is_allowed_host urlparse url allowed) disallowed_host create d h
            (λ _. create_then-Tracked v user url token d h (not-true (is_in v d.repos) n)))
