-- ===== src/Orchestrator/Repositories/Requested.antt =====
-- What an update of a repository's paths leaves and answers.
use yucca.Common.{
  ℕ, ◌==◌, ◌≡◌, refl, inl, inr, true, none, some, List, [], ◌∷◌, any, find, String, arith,
  Option-cases,
}
use yucca.Common.Monad.{ok, Result-cases}
use yucca.Common.Sets.{contains, string_Eq}
use yucca.Orchestrator.{Tables, RepositoryRow}
use yucca.Orchestrator.Paths.{paths_in, sync_paths}
use yucca.Orchestrator.Paths.Sync.{sync_paths-requested}
use yucca.Orchestrator.Repositories.{
  Backend, Restic, Configuration, LocalRepository, row, get_backend,
}
use yucca.Orchestrator.Repositories.Update.{UpdateDto, update_repository, fetch, new_name}

any-row :
    (id : ℕ) (rows : List RepositoryRow) (r : RepositoryRow)
    → find (λ r. r.id == id) rows ≡ some r
    → any (λ r. r.id == id) rows ≡ true
any-row id [] r e = cc
any-row id (x ∷ rows) r e = ground (arith, any-row id rows r)

-- An update of a linked repository that asks for paths and succeeds leaves exactly these paths, and
-- answers with them.
pub update_repository-requested :
    (backend : ℕ → Backend) (restic : Restic) (id : ℕ) (dto : UpdateDto) (requested : List String)
    (t : Tables) (v : LocalRepository)
    → dto.paths ≡ some requested
    → (update_repository backend restic id dto none t).0 ≡ ok v
    → ((p : String)
        → contains (paths_in id (update_repository backend restic id dto none t).1.paths) p
          ≡ contains requested p)
      × ((c : Configuration) × (v.configuration ≡ some c)
          × (c.paths ≡ paths_in id (update_repository backend restic id dto none t).1.paths))
unfolding update_repository
update_repository-requested backend restic id dto requested t v asked e =
    elim (Option-cases (row id t)) [
      | inl absent ↦ absurd (ground arith)
      | inr (r, found) ↦ elim (Result-cases (get_backend r.backend_id t).0) [
        | inr (x, failed) ↦ absurd (unfold get_backend in ground arith)
        | inl (b, listed) ↦
            elim (Result-cases
              (fetch backend restic r.backend_id r.remote_id (new_name dto.name))) [
                | inr (x, failed) ↦ absurd (unfold get_backend in ground arith)
                | inl (remote, got) ↦
                    let (done, own, others, rest) =
                      sync_paths-requested id requested t (any-row id t.repositories r found) in
                    let same : (update_repository backend restic id dto none t).1.paths
                        ≡ (sync_paths id requested t).1.paths =
                      unfold get_backend in ground arith in
                    let after : Tables = (update_repository backend restic id dto none t).1 in
                    elim (Option-cases (row id after)) [
                      | inl gone ↦ absurd (unfold get_backend in ground arith)
                      | inr (x, kept) ↦ (
                        (λ p. rw same (own p)),
                        (
                          record {
                            paths = paths_in id after.paths;
                            retention_policy = x.retention_policy;
                          },
                          (unfold get_backend in ground arith),
                          refl,
                        ),
                      )
                    ]
              ]
      ]
    ]
