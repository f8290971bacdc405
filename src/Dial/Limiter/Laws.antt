-- ===== src/Dial/Limiter/Laws.antt =====
-- The window of the rate limiter: what a cleanup may drop, and what "limited" means.
use grand_line.Common.{ℕ, ◌<◌, ◌≡◌, refl, String, ◌||◌, List, [], ◌∷◌, ◌==◌, arith, ap, length}
use grand_line.Dial.Limiter.{
  Usage, Limits, status_from, sum_tokens, window, check, surviving, cleanup,
}

window-surviving :
    (p q : String) (now later : ℕ) (us : List Usage)
    → now < later
    → window q later (surviving p now us) ≡ window q later us
window-surviving p q now later [] h = refl
window-surviving p q now later (u ∷ us) h = ground (arith, window-surviving p q now later us h)

-- A cleanup at some time, of any provider, changes the answer of no later check.
pub check-cleanup :
    (l : Limits) (p q : String) (now later : ℕ) (us : List Usage)
    → now < later
    → check l q later (cleanup p now us).1 ≡ check l q later us
unfolding check cleanup
check-cleanup l p q now later us h =
    ap (λ es. status_from l (sum_tokens es) (length es)) (window-surviving p q now later us h)

-- A provider is limited exactly when the check reports no tokens or no requests as remaining.
pub check_limited :
    (l : Limits) (provider : String) (now : ℕ) (us : List Usage)
    → (check l provider now us).is_limited ≡ (
        ((check l provider now us).remaining_tokens == 0)
        || ((check l provider now us).remaining_requests == 0))
unfolding check
check_limited l provider now us = ground arith
