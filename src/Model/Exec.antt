-- ===== src/Model/Exec.antt =====
-- Service methods: they change the rows and return a value or raise. What was written before a
-- raise stays written in the session, so the rows come back in both cases.
use grand_line.Common.{Option, none, some}
use grand_line.Model.World.{World, Exn}

-- The result of a method that returns nothing.
abbrev pub Done : Type 0
Done = Unit {0}

pub data Result {ℓ} (A : Type ℓ) : Type ℓ where
  ok : A → Result A
  raise : Exn → Result A

abbrev pub and_then : {A B : Type 0} → Result A → (A → Result B) → Result B
and_then (ok a) f = f a
and_then (raise e) f = raise e

abbrev pub Exec : Type 0 → Type 0
Exec A = World → Result A × World

infixl 5 ◌>>=◌ ◌>>◌
abbrev pub ◌>>=◌ : {A B : Type 0} → Exec A → (A → Exec B) → Exec B
◌>>=◌ m f w = let (r, w') = m w in elim r [ ok a ↦ f a w' | raise e ↦ (raise e, w') ]

abbrev pub ◌>>◌ : {A B : Type 0} → Exec A → Exec B → Exec B
m >> k = m >>= λ _. k

abbrev pub pure : {A : Type 0} → A → Exec A
pure a w = (ok a, w)

abbrev pub throw : {A : Type 0} → Exn → Exec A
throw e w = (raise e, w)

abbrev pub gets : {A : Type 0} → (World → A) → Exec A
gets f w = (ok (f w), w)

abbrev pub modify : (World → World) → Exec Done
modify f w = (ok tt, f w)

abbrev pub lift : {A : Type 0} → Result A → Exec A
lift r w = (r, w)

-- `try: m except E as exc: handler exc`, where the handler takes every exception.
abbrev pub catch : {A : Type 0} → Exec A → (Exn → Exec A) → Exec A
catch m h w = let (r, w') = m w in elim r [ ok a ↦ (ok a, w') | raise e ↦ h e w' ]

-- `assert x is not None`, and a loaded row that must be there.
abbrev pub require_some : {A : Type 0} → Exn → Option A → Exec A
require_some e none = throw e
require_some e (some a) = pure a
