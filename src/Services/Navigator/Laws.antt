-- ===== src/Services/Navigator/Laws.antt =====
-- What the Navigator hands to the Doctor.
use grand_line.Common.{
  ℕ, suc, ◌≡◌, refl, String, Bool, Option, none, some, List, [], ◌∷◌, map, &&-right, all_by,
  contains, ap, Bool-cases, inl, inr,
}
use grand_line.Model.Voyage
use grand_line.Model.Voyage.{PhaseSpec}
use grand_line.Model.World.{World, Plan, Poneglyph, Event, status_of, set_status}
use grand_line.Model.Exec.{Result, ok, raise}
use grand_line.Plan.Spec.{valid, numbers, validate_plan_graph}
use grand_line.Pipeline.Guards.{require_can_enter_tdd, poneglyph_phases}
use grand_line.Pipeline.Guards.Laws.{require_can_enter_tdd_iff}
use grand_line.Services.Publishing.{numbered}
use grand_line.Services.Navigator.{
  PoneglyphContentSpec, spec_numbers, same_set, generate_poneglyphs, poneglyph_rows, poneglyph_row,
  finish_poneglyphs, draft_poneglyphs,
}

-- What the Navigator promises for a plan: poneglyphs that let TDD begin, which it returns, or the
-- poneglyphs as they were; and a voyage that is CHARTED.
abbrev pub Drafted : Plan → World → Result (List Poneglyph) × World → Type 0
Drafted plan w (ok rows, w') =
    (require_can_enter_tdd plan w'.poneglyphs ≡ ok tt)
    × (w'.poneglyphs ≡ rows)
    × (status_of w' ≡ Voyage.charted)
Drafted plan w (raise e, w') = (w'.poneglyphs ≡ w.poneglyphs) × (status_of w' ≡ Voyage.charted)

module _ (up : Event → Bool) (route : List PhaseSpec → Result String)
    (parse_json : String → Option (List PoneglyphContentSpec))
    (dump_json : PoneglyphContentSpec → String) (fresh : ℕ → ℕ) where
  poneglyph_phases-rows :
      (i : ℕ) (specs : List PoneglyphContentSpec)
      → poneglyph_phases
          (map (poneglyph_row up route parse_json dump_json fresh) (numbered i specs))
        ≡ spec_numbers specs
  poneglyph_phases-rows i [] = refl
  poneglyph_phases-rows i (s ∷ specs) =
      ap (λ ns. s.phase_number ∷ ns) (poneglyph_phases-rows (suc i) specs)

  finish_poneglyphs-Drafted :
      (plan : Plan) (r : Result (Option (List PoneglyphContentSpec))) (w : World)
      → validate_plan_graph plan.phases ≡ valid
      → Drafted plan w (finish_poneglyphs up route parse_json dump_json fresh plan r w)
  finish_poneglyphs-Drafted plan (raise e) w v = (refl, refl)
  finish_poneglyphs-Drafted plan (ok none) w v = (refl, refl)
  finish_poneglyphs-Drafted plan (ok (some specs)) w v =
      let rows = poneglyph_rows up route parse_json dump_json fresh specs in
      elim (Bool-cases (same_set (spec_numbers specs) (numbers plan.phases))) [
        | inl e ↦ rw e (
          (require_can_enter_tdd_iff plan v rows).0.1 (
              rw (poneglyph_phases-rows 0 specs) (
                &&-right (all_by (λ n. contains n (numbers plan.phases)) (spec_numbers specs))
                  (all_by (λ n. contains n (spec_numbers specs)) (numbers plan.phases)) e)),
          refl,
          refl,
        )
        | inr e ↦ rw e (refl, refl)
      ]

  -- For a valid plan, whatever the model and the parser do, `draft_poneglyphs` leaves the voyage
  -- CHARTED. Poneglyphs that it returns are the voyage's and cover the plan, so that TDD may begin;
  -- with an error the poneglyphs are as before.
  pub draft_poneglyphs-Drafted :
      (plan : Plan) (w : World)
      → validate_plan_graph plan.phases ≡ valid
      → Drafted plan w (draft_poneglyphs up route parse_json dump_json fresh plan w)
  unfolding draft_poneglyphs
  draft_poneglyphs-Drafted plan w v =
      finish_poneglyphs-Drafted plan
        (generate_poneglyphs up route parse_json dump_json fresh plan.phases)
        (set_status Voyage.pdd w) v
