-- ===== src/Services/Captain/Laws.antt =====
-- What the Captain hands to the Navigator.
use grand_line.Common.{
  ℕ, ◌≡◌, refl, String, Bool, Option, none, some, List, [], ◌∷◌, ◌++◌, arith, ltb, best, latest,
  if◌then◌else◌,
}
use grand_line.Model.Voyage
use grand_line.Model.Voyage.{PhaseSpec}
use grand_line.Model.World.{World, Plan, Event, status_of, load_plan, set_status}
use grand_line.Model.Exec.{Result, ok, raise, and_then}
use grand_line.Plan.Spec.{SpecResult, valid, invalid, validate_plan_graph}
use grand_line.Services.Captain.{
  if_valid, next_version, validate_plan, decompose, planning_task, finish_plan, chart_course,
}

best-append {ℓ} :
    {A : Type ℓ} (key : A → ℕ) (b : A) (xs : List A) (x : A)
    → best key b (xs ++ x ∷ []) ≡ (if ltb (key (best key b xs)) (key x) then x else best key b xs)
best-append key b [] x = refl
best-append key b (y ∷ xs) x = best-append key (if ltb (key b) (key y) then y else b) xs x

latest-append :
    (ps : List Plan) (p : Plan)
    → p.version ≡ next_version (latest (λ (q : Plan). q.version) ps)
    → latest (λ (q : Plan). q.version) (ps ++ p ∷ []) ≡ some p
latest-append [] p h = refl
latest-append (q ∷ ps) p h = ground (arith, best-append (λ (r : Plan). r.version) q ps p)

-- What holds of the phases that a graph returns.
abbrev Kept : {A : Type 0} → (A → Type 0) → Result (Option A) → Type 0
Kept P (ok (some a)) = P a
Kept P _ = Unit

-- What the Captain promises of the rows behind its result: a plan that is valid and that the next
-- stage loads, or the plans as they were; and a voyage that is CHARTED.
abbrev pub Charted : World → Result Plan × World → Type 0
Charted w (ok plan, w') =
    (load_plan w' ≡ some plan)
    × (validate_plan_graph plan.phases ≡ valid)
    × (status_of w' ≡ Voyage.charted)
Charted w (raise e, w') = (w'.plans ≡ w.plans) × (status_of w' ≡ Voyage.charted)

Kept-if_valid :
    (o : Option (List PhaseSpec))
    → Kept
        (λ phases. validate_plan_graph phases ≡ valid)
        (ok (elim o [ none ↦ none | some phases ↦ if_valid (validate_plan_graph phases) phases ]))
Kept-if_valid none = tt
Kept-if_valid (some phases) = go (validate_plan_graph phases) refl
  where
    go :
        (r : SpecResult)
        → validate_plan_graph phases ≡ r
        → Kept (λ ps. validate_plan_graph ps ≡ valid) (ok (if_valid r phases))
    go valid e = e
    go (invalid x) e = tt

module _ (up : Event → Bool) (recall : String → Result String) (route : String → Result String)
    (parse_json : String → Option (List PhaseSpec)) where
  finish_plan-Charted :
      (id : ℕ) (r : Result (Option (List PhaseSpec))) (w : World)
      → Kept (λ phases. validate_plan_graph phases ≡ valid) r
      → Charted w (finish_plan up recall route parse_json id r w)
  finish_plan-Charted id (raise e) w k = (refl, refl)
  finish_plan-Charted id (ok none) w k = (refl, refl)
  finish_plan-Charted id (ok (some phases)) w k =
      let p : Plan = record { id = id; version = next_version (load_plan w); phases = phases } in
      (latest-append w.plans p refl, k, refl)

  decompose-Kept :
      (task : String) (r : Result String)
      → Kept
          (λ phases. validate_plan_graph phases ≡ valid)
          (and_then r (λ raw. ok (validate_plan up recall route parse_json raw)))
  unfolding validate_plan
  decompose-Kept task (raise e) = tt
  decompose-Kept task (ok raw) = Kept-if_valid (parse_json raw)

  -- Whatever the model, the parser and the Log Book do, `chart_course` leaves the voyage CHARTED. A
  -- plan that it returns is valid and is the one that `load_plan` finds; with an error the plans are
  -- as before.
  pub chart_course-Charted :
      (id : ℕ) (task : String) (w : World)
      → Charted w (chart_course up recall route parse_json id task w)
  unfolding chart_course
  chart_course-Charted id task w =
      let t = planning_task recall w.voyage.target_repo task in
      finish_plan-Charted id (decompose up recall route parse_json t) (set_status Voyage.planning w)
        (decompose-Kept t (route t))
