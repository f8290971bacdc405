-- ===== src/Services/Shipwright/Rounds.antt =====
-- services/shipwright_service.py: the iterations of `build_code`, and the whole method.
use grand_line.Common.{ℕ, zero, suc, String, Bool, not, ◌-◌, ◌&&◌, some, List, ◌++◌, if◌then◌else◌}
use grand_line.Model.Voyage.{phase_get}
use grand_line.Model.World.{
  Poneglyph, HealthCheck, vitest_not_supported, phase_not_buildable, shipwright_error, Event,
}
use grand_line.Model.Exec.{Result, ok, raise, raise, Exec, ◌>>=◌, ◌>>◌, pure, modify, catch}
use grand_line.Services.Interventions.{drain_pending_interventions}
use grand_line.Services.Shipwright.Iteration.{
  Section, Parsed, ExecutionResult, ShipwrightState, invoke,
}
use grand_line.Services.Shipwright.Build.{
  BuildResult, is_buildable, all_pytest, has_error, is_passed, text_of, parse_failed_prefix,
  begin_iteration, checkpoint_iteration, build_state, begin_build, abort_build, conclude_build,
}

-- `SHIPWRIGHT_MAX_ITERATIONS`
abbrev pub shipwright_max_iterations : ℕ
shipwright_max_iterations = 3

-- What the next iteration is told about this one.
abbrev pub remember : ShipwrightState → ShipwrightState
remember s = record s {
  last_test_output =
      if has_error s.error then some (parse_failed_prefix ++ text_of s.error) else some s.stdout;
}

-- No further iteration: the tests passed.
abbrev pub is_done : ShipwrightState → Bool
is_done s = not (has_error s.error) && is_passed s.exit_code

-- What the last iteration leaves: after a parse error the loop is left at once.
abbrev pub last_state : ShipwrightState → ShipwrightState
last_state s = if has_error s.error then s else remember s

abbrev pub checkpointed : Result ShipwrightState → Exec ShipwrightState
checkpointed (ok s) w = (ok s, checkpoint_iteration s w)
checkpointed (raise e) w = (raise e, w)

module _ (route : ℕ → List Section → Result String) (parse_output : String → Parsed)
    (execute : ℕ → List (String × String) → Result ExecutionResult) where
  -- One pass of the loop: interventions, the graph, the checkpoint.
  unfoldable pub pass : ℕ → ℕ → ShipwrightState → Exec ShipwrightState
  unfolding drain_pending_interventions invoke
  pass n i s = drain_pending_interventions n >>= λ d.
      checkpointed (invoke route parse_output execute (begin_iteration i d s))

  -- `iterate n k i s` runs iteration `i` and at most `k` more.
  unfoldable pub iterate : ℕ → ℕ → ℕ → ShipwrightState → Exec ShipwrightState
  unfolding pass
  iterate n zero i s = pass n i s >>= λ s'. pure (if is_done s' then s' else last_state s')
  iterate n (suc k) i s = pass n i s >>= λ s'.
      let next = iterate n k (suc i) (remember s') in if is_done s' then pure s' else next

  -- The part of `build_code` behind its two guards.
  unfoldable pub build_phase : (Event → Bool) → ℕ → Poneglyph → List HealthCheck → Exec BuildResult
  unfolding iterate
  build_phase up n p hcs =
      modify (begin_build up n)
      >> catch (iterate n (shipwright_max_iterations - 1) 1 (build_state n p hcs))
          (abort_build up n)
      >>= conclude_build up n

  unfoldable pub build_code : (Event → Bool) → ℕ → Poneglyph → List HealthCheck → Exec BuildResult
  unfolding build_phase
  build_code up n p hcs w =
      let built = build_phase up n p hcs w in
      if not (all_pytest hcs)
      then (raise (shipwright_error vitest_not_supported), w)
      else (if not (is_buildable (phase_get n w.voyage.phase_status))
          then (raise (shipwright_error phase_not_buildable), w)
          else built)
