-- ===== src/Pipeline/Service/Commands.antt =====
-- The commands of the API: which states they leave, and what a closed voyage still admits.
use grand_line.Common.{
  ℕ, String, ◌≡◌, refl, Bool, true, false, Option, some, List, [], ◌∷◌, arith, ◌==◌, if◌then◌else◌,
}
use grand_line.Model.Voyage
use grand_line.Model.Voyage.{VoyageStatus, PhaseStatus, PhaseMap, pending, phase_get, phase_put}
use grand_line.Model.Phases.{phase_get-put}
use grand_line.Model.World.{World, Event, pipeline_error, voyage_not_resumable, status_of}
use grand_line.Model.Exec.{Done, ok, raise, Exec}
use grand_line.Pipeline.Service.{is_terminal, pause, resume, cancel, inject, redirect}

-- The requests that the API passes on to the service for a run that was started: a start is none of them.
pub data Command : Type 0 where
  pause_voyage resume_voyage cancel_voyage : Command
  inject_context : String → Option ℕ → Command
  redirect_phase : ℕ → String → Command

unfoldable pub perform : (Event → Bool) → Command → Exec Done
unfolding pause resume cancel inject redirect
perform up pause_voyage = pause up
perform up resume_voyage = resume up
perform up cancel_voyage = cancel up
perform up (inject_context context phase) = inject up context phase
perform up (redirect_phase phase instruction) = redirect up phase instruction

-- A series of requests; one that raises ends only itself.
unfoldable pub perform_all : (Event → Bool) → List Command → World → World
unfolding perform
perform_all up [] w = w
perform_all up (c ∷ cs) w = perform_all up cs (perform up c w).1

-- No command changes a voyage of this status.
abbrev pub is_closed : VoyageStatus → Bool
is_closed Voyage.completed = true
is_closed Voyage.cancelled = true
is_closed _ = false

perform-closed :
    (up : Event → Bool) (c : Command) (w : World)
    → is_closed (status_of w) ≡ true
    → (perform up c w).1 ≡ w
unfolding perform
perform-closed up pause_voyage w h = ground arith
perform-closed up resume_voyage w h = ground arith
perform-closed up cancel_voyage w h = ground arith
perform-closed up (inject_context context phase) w h = ground arith
perform-closed up (redirect_phase phase instruction) w h = ground arith

-- No series of pauses, resumes, cancellations, injections and redirects changes any row of a COMPLETED or
-- CANCELLED voyage.
pub perform_all-closed :
    (up : Event → Bool) (cs : List Command) (w : World)
    → is_closed (status_of w) ≡ true
    → perform_all up cs w ≡ w
unfolding perform_all
perform_all-closed up [] w h = refl
perform_all-closed up (c ∷ cs) w h = rw (perform-closed up c w h) (perform_all-closed up cs w h)

abbrev pub is_resume : Command → Bool
is_resume resume_voyage = true
is_resume _ = false

abbrev pub no_resume : List Command → Bool
no_resume [] = true
no_resume (c ∷ cs) = if is_resume c then false else no_resume cs

perform-failed :
    (up : Event → Bool) (c : Command) (w : World)
    → status_of w ≡ Voyage.failed
    → is_resume c ≡ false
    → (perform up c w).1 ≡ w
unfolding perform
perform-failed up pause_voyage w h n = ground arith
perform-failed up resume_voyage w h n = cc
perform-failed up cancel_voyage w h n = ground arith
perform-failed up (inject_context context phase) w h n = ground arith
perform-failed up (redirect_phase phase instruction) w h n = ground arith

-- A FAILED voyage leaves that state by a resume only.
pub perform_all-failed :
    (up : Event → Bool) (cs : List Command) (w : World)
    → status_of w ≡ Voyage.failed
    → no_resume cs ≡ true
    → perform_all up cs w ≡ w
unfolding perform_all
perform_all-failed up [] w h n = refl
perform_all-failed up (c ∷ cs) w h n =
    rw (perform-failed up c w h (ground arith)) (perform_all-failed up cs w h (ground arith))

-- The statuses from which a run may be started again.
abbrev pub is_runnable : VoyageStatus → Bool
is_runnable Voyage.charted = true
is_runnable Voyage.paused = true
is_runnable Voyage.failed = true
is_runnable _ = false

-- `resume` on every status: it succeeds on CHARTED, PAUSED and FAILED, leaves such a voyage CHARTED
-- and changes nothing else of the voyage's row, and refuses every other status with that row
-- unchanged.
pub resume_by_status :
    (up : Event → Bool) (w : World)
    → ((resume up w).0 ≡ (
        if is_runnable (status_of w) then ok tt else raise (pipeline_error voyage_not_resumable)))
      × (status_of (resume up w).1
          ≡ (if is_runnable (status_of w) then Voyage.charted else status_of w))
      × ((resume up w).1.voyage.phase_status ≡ w.voyage.phase_status)
unfolding resume
resume_by_status up w = ground arith

-- A redirect of a voyage that is not terminal resets the status of its phase to PENDING, and leaves
-- the status of every other phase and of the voyage.
pub redirect_resets :
    (up : Event → Bool) (n k : ℕ) (instruction : String) (w : World)
    → is_terminal (status_of w) ≡ false
    → (phase_get k (redirect up n instruction w).1.voyage.phase_status
        ≡ (if n == k then some pending else phase_get k w.voyage.phase_status))
      × (status_of (redirect up n instruction w).1 ≡ status_of w)
unfolding redirect
redirect_resets up n k instruction w h =
    rw h (phase_get-put n k pending w.voyage.phase_status, refl)
