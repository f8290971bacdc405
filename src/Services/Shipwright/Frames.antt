-- ===== src/Services/Shipwright/Frames.antt =====
-- What a step of a build leaves alone, and tests of what it returns.
use grand_line.Common.{
  ℕ, ◌+◌, suc, ◌≡◌, refl, ◌∙◌, ◌&&◌, not, Bool, true, false, arith, leb, if◌then◌else◌, Bool-cases,
  inl, inr,
}
use grand_line.Model.World.{World}
use grand_line.Model.Exec.{Result, ok, raise, and_then, pure, Exec, ◌>>=◌}
use grand_line.Services.Shipwright.Iteration.{ExecutionResult, ShipwrightState, with_result}
use grand_line.Services.Shipwright.Build.{has_error, is_passed}
use grand_line.Services.Shipwright.Rounds.{is_done, last_state, checkpointed}

-- What the iterations leave alone.
abbrev pub Frame : World → World → Type 0
Frame w w' =
    (w'.voyage ≡ w.voyage)
    × (w'.build_artifacts ≡ w.build_artifacts)
    × (w'.shipwright_runs ≡ w.shipwright_runs)

-- A returned value passes the test.
abbrev pub ok_by : {A : Type 0} → (A → Bool) → Result A → Bool
ok_by p (ok a) = p a
ok_by p (raise e) = true

-- A state of iterations `i` to `i + k` in which a parse error excludes a pass.
abbrev pub sound : ℕ → ℕ → ShipwrightState → Bool
sound i k s =
    leb i s.iteration && leb s.iteration (i + k) && not (is_passed s.exit_code && has_error s.error)

pub bind-Frame :
    {A B : Type 0} (v w : World) (r : Result A) (f : A → Exec B)
    → Frame v w
    → ((a : A) → Frame v (f a w).1)
    → Frame v (((λ _. (r, w)) >>= f) v).1
bind-Frame v w (ok a) f h k = k a
bind-Frame v w (raise e) f h k = h

pub bind-ok_by :
    {A B : Type 0} (q : A → Bool) (p : B → Bool) (v w : World) (r : Result A) (f : A → Exec B)
    → ok_by q r ≡ true
    → ((a : A) → q a ≡ true → ok_by p (f a w).0 ≡ true)
    → ok_by p (((λ _. (r, w)) >>= f) v).0 ≡ true
bind-ok_by q p v w (ok a) f h k = k a h
bind-ok_by q p v w (raise e) f h k = refl

pub sound-rest :
    (i : ℕ) (s : ShipwrightState)
    → s.iteration ≡ i
    → (is_passed s.exit_code && has_error s.error) ≡ false
    → sound i 0 s ≡ true
sound-rest i s e h = ground arith

pub with_result-sound :
    (r : ExecutionResult) (s : ShipwrightState)
    → has_error s.error ≡ false
    → sound s.iteration 0 (with_result r s) ≡ true
with_result-sound r s h = ground arith

pub and_then-ok_by :
    {A B : Type 0} (p : B → Bool) (r : Result A) (f : A → Result B)
    → ((a : A) → ok_by p (f a) ≡ true)
    → ok_by p (and_then r f) ≡ true
and_then-ok_by p (ok a) f h = h a
and_then-ok_by p (raise e) f h = refl

pub and_then_twice-ok_by :
    {A B C : Type 0} (p : C → Bool) (r : Result A) (f : A → B) (g : B → Result C)
    → ((a : A) → ok_by p (g (f a)) ≡ true)
    → ok_by p (and_then (and_then r (λ a. ok (f a))) g) ≡ true
and_then_twice-ok_by p (ok a) f g h = h a
and_then_twice-ok_by p (raise e) f g h = refl

pub choose-Frame :
    {A : Type 0} (v u : World) (b : Bool) (a : A) (m : Exec A)
    → Frame v u
    → Frame v (m u).1
    → Frame v ((if b then pure a else m) u).1
choose-Frame v u true a m h k = h
choose-Frame v u false a m h k = k

pub choose-ok_by :
    {A : Type 0} (p : A → Bool) (u : World) (b : Bool) (a : A) (m : Exec A)
    → p a ≡ true
    → ok_by p (m u).0 ≡ true
    → ok_by p ((if b then pure a else m) u).0 ≡ true
choose-ok_by p u true a m h k = h
choose-ok_by p u false a m h k = k

pub Frame-trans : (u v w : World) → Frame u v → Frame v w → Frame u w
Frame-trans u v w (a, b, c) (x, y, z) = (x ∙ a, y ∙ b, z ∙ c)

pub ok_by_mono :
    {A : Type 0} (p q : A → Bool) (r : Result A)
    → ((a : A) → p a ≡ true → q a ≡ true)
    → ok_by p r ≡ true
    → ok_by q r ≡ true
ok_by_mono p q (ok a) h k = h a k
ok_by_mono p q (raise e) h k = refl

pub sound-last :
    (i : ℕ) (s : ShipwrightState)
    → sound i 0 s ≡ true
    → sound i 0 (if is_done s then s else last_state s) ≡ true
sound-last i s h = elim (Bool-cases (is_done s)) [
  | inl e ↦ rw e h
  | inr e ↦ elim (Bool-cases (has_error s.error)) [ inl f ↦ rw (e, f) h | inr f ↦ rw (e, f) h ]
]

pub sound-later :
    (i k : ℕ) (s : ShipwrightState) → sound (suc i) k s ≡ true → sound i (suc k) s ≡ true
sound-later i k s h = ground arith

pub sound-sooner : (i k : ℕ) (s : ShipwrightState) → sound i 0 s ≡ true → sound i k s ≡ true
sound-sooner i k s h = ground arith

pub checkpointed-Frame :
    (v w : World) (r : Result ShipwrightState) → Frame v w → Frame v (checkpointed r w).1
checkpointed-Frame v w (ok s) h = h
checkpointed-Frame v w (raise e) h = h

pub checkpointed-ok_by :
    (p : ShipwrightState → Bool) (w : World) (r : Result ShipwrightState)
    → ok_by p r ≡ true
    → ok_by p (checkpointed r w).0 ≡ true
checkpointed-ok_by p w (ok s) h = h
checkpointed-ok_by p w (raise e) h = h
