-- ===== src/Services/Cabins/Reaping.antt =====
-- Series of calls of the service, and the reaper behind them.
use grand_line.Common.{ℕ, ◌≡◌, refl, true, List, [], ◌∷◌, keep}
use grand_line.Services.Cabins.{
  Work, CabinBackend, Cabins, find_cabin, ensure_cabin, work_in_cabin, destroy_cabin, reap_idle,
  cleanup_cabins,
}
use grand_line.Services.Cabins.Laws.{
  users, distinct, is_dead, is_alive, reap_each-users, reap_each-rows, reap_each-distinct,
  ensure_cabin-distinct, work_in_cabin-distinct, destroy_found-distinct,
}

-- A call of the service, with the times of the clock.
pub data Visit : Type 0 where
  ensuring : ℕ → ℕ → Visit
  working : ℕ → ℕ → ℕ → Work → Visit
  destroying : ℕ → Visit
  reaping : ℕ → Visit
  closing : Visit

abbrev pub no_cabins : Cabins
no_cabins = record { rows = []; calls = [] }

module _ (backend : CabinBackend) (idle_limit max_lifetime : ℕ) where
  -- What a call leaves behind, returned or raised.
  unfoldable pub visit : Visit → Cabins → Cabins
  unfolding ensure_cabin work_in_cabin destroy_cabin reap_idle cleanup_cabins
  visit (ensuring now user) s = (ensure_cabin backend idle_limit max_lifetime now user s).1
  visit (working now later user w) s =
      (work_in_cabin backend idle_limit max_lifetime now later user w s).1
  visit (destroying user) s = (destroy_cabin backend idle_limit max_lifetime user s).1
  visit (reaping now) s = (reap_idle backend idle_limit max_lifetime now s).1
  visit closing s = cleanup_cabins backend idle_limit max_lifetime s

  unfoldable pub visit_all : List Visit → Cabins → Cabins
  unfolding visit
  visit_all [] s = s
  visit_all (v ∷ vs) s = visit_all vs (visit v s)

  visit-distinct :
      (v : Visit) (s : Cabins) → distinct s.rows ≡ true → distinct (visit v s).rows ≡ true
  unfolding visit destroy_cabin reap_idle cleanup_cabins
  visit-distinct (ensuring now user) s h =
      ensure_cabin-distinct backend idle_limit max_lifetime now user s h
  visit-distinct (working now later user w) s h =
      work_in_cabin-distinct backend idle_limit max_lifetime now later user w s h
  visit-distinct (destroying user) s h =
      destroy_found-distinct backend idle_limit max_lifetime user (find_cabin user s.rows) s h
  visit-distinct (reaping now) s h =
      reap_each-distinct backend idle_limit max_lifetime now s.rows s h
  visit-distinct closing s h = refl

  visit_all-distinct :
      (vs : List Visit) (s : Cabins)
      → distinct s.rows ≡ true
      → distinct (visit_all vs s).rows ≡ true
  unfolding visit_all
  visit_all-distinct [] s h = h
  visit_all-distinct (v ∷ vs) s h = visit_all-distinct vs (visit v s) (visit-distinct v s h)

  -- Whatever the backend and the Sea Chest answer, after every series of calls on the empty registry:
  -- the reaper returns the users whose Cabins are idle or old enough at the time `now`, leaves the rows
  -- of all others as they were, in order, and the registry has one row for each user.
  pub visit_all-reaped :
      (vs : List Visit) (now : ℕ)
      → ((reap_idle backend idle_limit max_lifetime now (visit_all vs no_cabins)).0
          ≡ users
              (keep (is_dead backend idle_limit max_lifetime now) (visit_all vs no_cabins).rows))
        × ((reap_idle backend idle_limit max_lifetime now (visit_all vs no_cabins)).1.rows
            ≡ keep (is_alive backend idle_limit max_lifetime now) (visit_all vs no_cabins).rows)
        × (distinct (visit_all vs no_cabins).rows ≡ true)
  unfolding reap_idle
  visit_all-reaped vs now =
      let s = visit_all vs no_cabins in
      let h = visit_all-distinct vs no_cabins refl in
      (
        reap_each-users backend idle_limit max_lifetime now s.rows s,
        reap_each-rows backend idle_limit max_lifetime now s.rows [] s refl h,
        h,
      )
