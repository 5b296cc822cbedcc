-- ===== src/Orchestrator/Repositories/Import.antt =====
-- What an import stores, and what it answers.
use yucca.Common.{ℕ, ◌≡◌, inl, inr, some, [], ◌∷◌, ◌++◌, String, arith}
use yucca.Common.Monad.{ok, Result-cases}
use yucca.Orchestrator.{Tables}
use yucca.Orchestrator.Repositories.{
  Remote, Backend, Restic, LocalRepository, default_retention_policy, import_repository,
  infer_paths,
}

-- An import that succeeds stores one row, of the remote repository that the backend gave, and no paths,
-- although it answers with those of the newest snapshot as the repository's configuration.
pub import_repository-ok :
    (backend : ℕ → Backend) (restic : Restic) (fresh id backend_id : ℕ) (t : Tables)
    (v : LocalRepository)
    → (import_repository backend restic fresh id backend_id t).0 ≡ ok v
    → (remote : Remote) × (endpoint : String) × ((backend backend_id).get_repository id ≡ ok remote)
      × ((import_repository backend restic fresh id backend_id t).1 ≡ record t {
        repositories =
            t.repositories
            ++ record {
              id = fresh;
              remote_id = remote.id;
              backend_id = backend_id;
              retention_policy = some default_retention_policy;
            }
              ∷ [];
      })
      × (v.id ≡ fresh)
      × (v.configuration
          ≡ some (record {
            paths = infer_paths backend restic (restic.snapshots endpoint remote.id);
            retention_policy = some default_retention_policy;
          }))
unfolding import_repository
import_repository-ok backend restic fresh id backend_id t v e =
    elim (Result-cases ((backend backend_id).get_repository id)) [
      | inr (x, failed) ↦ absurd (ground arith)
      | inl (remote, got) ↦
          elim (Result-cases ((backend backend_id).get_restic_endpoint remote.id)) [
            | inr (x, failed) ↦ absurd (ground arith)
            | inl (endpoint, at) ↦ (remote, endpoint, got, ground arith, ground arith, ground arith)
          ]
    ]
