-- ===== src/Orchestrator/RunHistory/Outcome.antt =====
-- A run that is started is recorded with its outcome (repositories/runHistory.repository.ts).
use yucca.Common.{
  ℕ, ◌==◌, ==_iff, ◌≡◌, ap, ◌∙◌, true, false, Option, some, List, [], ◌∷◌, ◌++◌, any, All, arith,
}
use yucca.Common.Monad.{ok}
use yucca.Database.{Error, update_rows}
use yucca.Orchestrator.{Run}
use yucca.Orchestrator.RunHistory.{
  Worker, Work, run_create, publish, insert_run, finalize, finished, create_log, status_of,
  error_of, is_incomplete, set_failed,
}

-- what leaves the rows of the history
abbrev pub LeavesRuns : {A : Type 0} → Work A → Type 0
LeavesRuns m = (w : Worker) → (m w).1.tables.runs ≡ w.tables.runs

-- the state in which the work of a run begins
abbrev pub entered : Run → Worker → Worker
entered run w = record w {
  tables = record w.tables { runs = w.tables.runs ++ run ∷ [] };
  published = w.published ++ run_create run ∷ [];
}

update-last :
    (f : Run → Run) (runs : List Run) (run : Run)
    → any (λ r. r.id == run.id) runs ≡ false
    → update_rows (λ r. r.id == run.id) f (runs ++ run ∷ []) ≡ runs ++ f run ∷ []
update-last f [] run h = ground (arith, ==_iff run.id run.id)
update-last f (r ∷ runs) run h =
    let other : (r.id == run.id) ≡ false = ground (arith, h) in
    let rest = update-last f runs run (ground (arith, h)) in rw other (ap (λ t. r ∷ t) rest)

-- A run with a new id for a repository that is there ends as its work does, complete or failed, and stands in
-- the history so; its callback gets the outcome.
pub create_log-ends :
    (run : Run) (time : ℕ) (fn : Work (Unit {0})) (callback : Option Error → Work (Unit {0}))
    (w : Worker)
    → any (λ r. r.id == run.id) w.tables.runs ≡ false
    → any (λ r. r.id == run.repository_id) w.tables.repositories ≡ true
    → LeavesRuns fn
    → ((e : Option Error) → LeavesRuns (callback e))
    → ((e : Option Error) (w : Worker) → (callback e w).0 ≡ ok tt)
    → ((create_log run time (ok tt) fn callback w).0 ≡ ok (some (fn (entered run w)).0))
      × ((create_log run time (ok tt) fn callback w).1.tables.runs
          ≡ w.tables.runs ++ finished (status_of (fn (entered run w)).0) time run ∷ [])
      × ((create_log run time (ok tt) fn callback w).1.running
          ≡ (callback (error_of (fn (entered run w)).0) (fn (entered run w)).1).1.running)
unfolding create_log insert_run publish finalize
create_log-ends run time fn callback w fresh known kf kc total =
    let w1 = (fn (entered run w)).1 in
    let outcome = (fn (entered run w)).0 in
    let done = total (error_of outcome) w1 in
    let runs = kc (error_of outcome) w1 ∙ kf (entered run w) in
    let last = update-last (finished (status_of outcome) time) w.tables.runs run fresh in
    (
      ground (arith, fresh, known, done),
      ground (arith, fresh, known, done, runs, last),
      ground (arith, fresh, known, done),
    )

-- At a start of the agent each run that was left incomplete is marked as failed.
pub mark_incomplete_as_failed-none :
    (runs : List Run)
    → All (λ r. is_incomplete r ≡ false) (update_rows is_incomplete set_failed runs)
mark_incomplete_as_failed-none [] = tt
mark_incomplete_as_failed-none (r ∷ runs) = (ground arith, mark_incomplete_as_failed-none runs)
