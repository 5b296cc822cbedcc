-- ===== src/Orchestrator/Repositories/Update.antt =====
-- packages/yucca-sdk/orchestration-api/src/services/repository.service.ts: the changes of a repository that
-- is linked.
use text.Mathlib.Text.{◌==◌ as str_eq}
use yucca.Common.{ℕ, ◌==◌, true, false, Option, none, some, List, if◌then◌else◌, String}
use yucca.Common.Monad.{Result, pure, gets, or_throw, modify, skip, ◌>>=◌, ◌>>◌}
use yucca.Database.{Error, no_result, update_rows}
use yucca.Orchestrator.{Query, RetentionPolicy, RepositoryRow}
use yucca.Orchestrator.Paths.{paths_in, sync_paths}
use yucca.Orchestrator.Repositories.{
  Remote, Backend, Restic, LocalRepository, answer, row, metrics_of, get_backend, to_local,
}

-- `repositoryRepository.get`
unfoldable pub get_row : ℕ → Query RepositoryRow
get_row id = do r ← gets (row id); or_throw r no_result

pub record UpdateDto : Type 0 where
  pub name : Option String
  pub paths : Option (List String)
  -- `undefined`, or a policy or null
  pub retention_policy : Option (Option RetentionPolicy)

abbrev pub set_policy : Option RetentionPolicy → RepositoryRow → RepositoryRow
set_policy policy r = record r { retention_policy = policy }

-- `dto.name` is falsy when it is empty
abbrev pub new_name : Option String → Option String
new_name none = none
new_name (some name) = if str_eq name "" then none else some name

abbrev pub update_paths : ℕ → Option (List String) → Query (Unit {0})
update_paths id none = skip
update_paths id (some requested) = sync_paths id requested

abbrev pub update_policy : ℕ → Option (Option RetentionPolicy) → Query (Unit {0})
update_policy id none = skip
update_policy id (some policy) = modify λ t. record t {
  repositories = update_rows (λ r. r.id == id) (set_policy policy) t.repositories;
}

-- the backend of the caller, whose id is then the remote one, or that of the local row
abbrev pub target : ℕ → Option ℕ → Query (ℕ × ℕ)
target id (some backend_id) = pure (backend_id, id)
target id none = do r ← get_row id; pure (r.backend_id, r.remote_id)

module _ (backend : ℕ → Backend) (restic : Restic) where
  abbrev pub fetch : ℕ → ℕ → Option String → Result Error Remote
  fetch backend_id remote_id none = (backend backend_id).get_repository remote_id
  fetch backend_id remote_id (some name) = (backend backend_id).update_repository remote_id name

  unfoldable pub update_repository : ℕ → UpdateDto → Option ℕ → Query LocalRepository
  unfolding get_row
  update_repository id dto backend_id = do
    (b_id, remote_id) ← target id backend_id
    b ← get_backend b_id
    remote ← answer (fetch b_id remote_id (new_name dto.name))
    update_paths id dto.paths
    update_policy id dto.retention_policy
    t ← gets (λ t. t)
    r ← get_row id
    pure (record {
      id = id;
      name = remote.name;
      worm = remote.worm;
      metrics = some (metrics_of id t);
      configuration =
          some (record { paths = paths_in id t.paths; retention_policy = r.retention_policy });
      primary = record { id = b.id; kind = b.kind; online = true };
    })

  -- `reconfigureRepositoryPrimaryBackend`
  unfoldable pub reconfigure : (id backend_id : ℕ) → Query LocalRepository
  unfolding get_row
  reconfigure id backend_id = do
    b ← get_backend backend_id
    remote ← answer ((backend backend_id).create_repository "Restored Repository" false)
    endpoint ← answer ((backend backend_id).get_restic_endpoint remote.id)
    answer (restic.init endpoint remote.id)
    modify λ t. record t {
      repositories =
          update_rows (λ r. r.id == id)
            (λ r. record r { remote_id = remote.id; backend_id = backend_id }) t.repositories;
    }
    t ← gets (λ t. t)
    r ← get_row id
    pure (
        to_local id (record { paths = paths_in id t.paths; retention_policy = r.retention_policy })
          remote b t)
