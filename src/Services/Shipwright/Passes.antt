-- ===== src/Services/Shipwright/Passes.antt =====
-- The iterations of a build touch neither the voyage nor its artifacts, and are at most three.
use grand_line.Common.{ℕ, zero, suc, ◌≡◌, refl, true, String, List, arith, if◌then◌else◌}
use grand_line.Model.World.{World}
use grand_line.Model.Exec.{Result, ok, pure}
use grand_line.Services.Interventions.{nothing_drained, drain_rows, drain_pending_interventions}
use grand_line.Services.Shipwright.Iteration.{
  Section, Parsed, parsed, rejected, ExecutionResult, ShipwrightState, generate, invoke,
  with_result, with_parsed, run_tests, test_files, build_user_message,
}
use grand_line.Services.Shipwright.Build.{begin_iteration}
use grand_line.Services.Shipwright.Rounds.{pass, iterate, is_done, remember, last_state}
use grand_line.Services.Shipwright.Frames.{
  Frame, ok_by, sound, bind-Frame, bind-ok_by, with_result-sound, and_then-ok_by,
  and_then_twice-ok_by, choose-Frame, choose-ok_by, Frame-trans, ok_by_mono, sound-last,
  sound-later, sound-sooner, checkpointed-Frame, checkpointed-ok_by,
}

module _ (route : ℕ → List Section → Result String) (parse_output : String → Parsed)
    (execute : ℕ → List (String × String) → Result ExecutionResult) where
  run_tests-sound :
      (p : Parsed) (s : ShipwrightState)
      → ok_by (sound s.iteration 0) (run_tests route parse_output execute (with_parsed p s)) ≡ true
  unfolding run_tests
  run_tests-sound (rejected e) s = ground arith
  run_tests-sound (parsed fs) s =
      and_then-ok_by (sound s.iteration 0) (execute s.iteration (test_files fs s.health_checks))
        (λ r. ok (with_result r (with_parsed (parsed fs) s)))
        (λ r. with_result-sound r (with_parsed (parsed fs) s) refl)

  invoke-sound :
      (s : ShipwrightState)
      → ok_by (sound s.iteration 0) (invoke route parse_output execute s) ≡ true
  unfolding generate invoke
  invoke-sound s =
      and_then_twice-ok_by (sound s.iteration 0) (route s.iteration (build_user_message s))
        (λ raw. with_parsed (parse_output raw) s) (run_tests route parse_output execute)
        (λ raw. run_tests-sound (parse_output raw) s)

  pass-Frame :
      (n i : ℕ) (s : ShipwrightState) (w : World)
      → Frame w (pass route parse_output execute n i s w).1
  unfolding pass drain_pending_interventions
  pass-Frame n i s w =
      let (r, w') = drain_pending_interventions n w in
      checkpointed-Frame w w'
        (invoke route parse_output execute
          (begin_iteration i (drain_rows n w.actions nothing_drained).1 s))
        (refl, refl, refl)

  pass-sound :
      (n i : ℕ) (s : ShipwrightState) (w : World)
      → ok_by (sound i 0) (pass route parse_output execute n i s w).0 ≡ true
  unfolding pass drain_pending_interventions
  pass-sound n i s w =
      let (r, w') = drain_pending_interventions n w in
      let s' = begin_iteration i (drain_rows n w.actions nothing_drained).1 s in
      checkpointed-ok_by (sound i 0) w' (invoke route parse_output execute s') (invoke-sound s')

  pub iterate-Frame :
      (n k i : ℕ) (s : ShipwrightState) (w : World)
      → Frame w (iterate route parse_output execute n k i s w).1
  unfolding iterate
  iterate-Frame n zero i s w =
      let (r, u) = pass route parse_output execute n i s w in
      bind-Frame w u r (λ s'. pure (if is_done s' then s' else last_state s')) (pass-Frame n i s w)
        (λ s'. pass-Frame n i s w)
  iterate-Frame n (suc k) i s w =
      let (r, u) = pass route parse_output execute n i s w in
      bind-Frame w u r
        (λ s'.
          if is_done s'
          then pure s'
          else iterate route parse_output execute n k (suc i) (remember s'))
        (pass-Frame n i s w)
        (λ s'.
          choose-Frame w u (is_done s') s'
            (iterate route parse_output execute n k (suc i) (remember s')) (pass-Frame n i s w)
            (Frame-trans w u (iterate route parse_output execute n k (suc i) (remember s') u).1
              (pass-Frame n i s w) (iterate-Frame n k (suc i) (remember s') u)))

  pub iterate-sound :
      (n k i : ℕ) (s : ShipwrightState) (w : World)
      → ok_by (sound i k) (iterate route parse_output execute n k i s w).0 ≡ true
  unfolding iterate
  iterate-sound n zero i s w =
      let (r, u) = pass route parse_output execute n i s w in
      bind-ok_by (sound i 0) (sound i 0) w u r
        (λ s'. pure (if is_done s' then s' else last_state s')) (pass-sound n i s w) (sound-last i)
  iterate-sound n (suc k) i s w =
      let (r, u) = pass route parse_output execute n i s w in
      bind-ok_by (sound i 0) (sound i (suc k)) w u r
        (λ s'.
          if is_done s'
          then pure s'
          else iterate route parse_output execute n k (suc i) (remember s'))
        (pass-sound n i s w)
        (λ s' h.
          choose-ok_by (sound i (suc k)) u (is_done s') s'
            (iterate route parse_output execute n k (suc i) (remember s'))
            (sound-sooner i (suc k) s' h)
            (ok_by_mono (sound (suc i) k) (sound i (suc k))
              (iterate route parse_output execute n k (suc i) (remember s') u).0 (sound-later i k)
              (iterate-sound n k (suc i) (remember s') u)))
