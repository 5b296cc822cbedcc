-- ===== src/Orchestrator/Backups/Answered.antt =====
-- When a backup answers (services/repository.service.ts, createBackup).
use yucca.Common.{
  ℕ, suc, ◌+◌, ◌≤◌, ◌==◌, ◌≡◌, refl, ◌≢◌, ◌⊎◌, inl, inr, false, Option, none, List, [], ◌∷◌, any,
  find, arith, Bool-cases, Option-cases, String,
}
use yucca.Common.Monad.{ok, Result-cases}
use yucca.Orchestrator.{Run}
use yucca.Orchestrator.Paths.{paths_in}
use yucca.Orchestrator.Repositories.{Backend, get_backend, row}
use yucca.Orchestrator.Repositories.Update.{get_row}
use yucca.Orchestrator.RunHistory.{Worker}
use yucca.Orchestrator.Tasks.{can_start}
use yucca.Orchestrator.Backups.{Restic, MetricsApi, get_restic_parameters, create_backup}
use yucca.Orchestrator.Backups.Ending.{create_backup-ends}

-- an id that no run has
abbrev pub new_id : List Run → ℕ
new_id [] = 0
new_id (r ∷ rs) = suc (r.id + new_id rs)

any-above : (rs : List Run) (n : ℕ) → new_id rs ≤ n → any (λ x. x.id == n) rs ≡ false
any-above [] n h = refl
any-above (r ∷ rs) n h = ground (arith, any-above rs n (omega arith))

pub new_id-fresh : (rs : List Run) → any (λ x. x.id == new_id rs) rs ≡ false
new_id-fresh rs = any-above rs (new_id rs) (omega arith)

paths-cases :
    (ps : List String) → (ps ≡ []) ⊎ ((p : String) × (rest : List String) × (ps ≡ p ∷ rest))
paths-cases [] = inl refl
paths-cases (p ∷ ps) = inr (p, ps, refl)

module _ (backend : ℕ → Backend) (api : ℕ → MetricsApi) (restic : Restic) where
  -- A backup under a new id, with a log, answers, be it by an error.
  pub create_backup-answers :
      (controller log id start time : ℕ) (signal : Option ℕ) (w : Worker)
      → any (λ x. x.id == log) w.tables.runs ≡ false
      → (create_backup backend api restic controller log id start time (ok tt) signal w).0 ≢ ok none
  unfolding create_backup get_restic_parameters get_row get_backend
  create_backup-answers controller log id start time signal w fresh e =
      elim (Bool-cases (can_start id w.running)) [
        | inr busy ↦ ground (arith, busy, e)
        | inl free ↦ elim (Option-cases (row id w.tables)) [
          | inl gone ↦ ground (arith, free, gone, e)
          | inr (r, known) ↦
              elim (Option-cases (find (λ b. b.id == r.backend_id) w.tables.backends)) [
                | inl gone ↦ ground (arith, free, known, gone, e)
                | inr (b, at) ↦
                    elim (Result-cases ((backend r.backend_id).get_restic_endpoint r.remote_id)) [
                      | inr (x, unreached) ↦ ground (arith, free, known, at, unreached, e)
                      | inl (endpoint, reached) ↦
                          elim (Result-cases (restic.derive_encryption_key r.remote_id)) [
                            | inr (x, keyless) ↦
                                ground (arith, free, known, at, reached, keyless, e)
                            | inl (key, derived) ↦ elim (paths-cases (paths_in id w.tables.paths)) [
                              | inl bare ↦
                                  ground (arith, free, known, at, reached, derived, bare, e)
                              | inr (p, ps, configured) ↦
                                  let (outcome, answered, runs, free_again, backed) =
                                    create_backup-ends backend api restic controller log id start
                                      time signal r b endpoint p key ps w free known at reached
                                      derived configured fresh in
                                  cc (answered, e)
                            ]
                          ]
                    ]
              ]
        ]
      ]
