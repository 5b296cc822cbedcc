-- ===== src/Orchestrator/Repositories/Deletion.antt =====
-- What deleting a repository leaves.
use yucca.Common.{
  ℕ, ◌==◌, nat_eq-ne, ◌≡◌, refl, ◌≢◌, ◌⊎◌, inl, inr, true, false, List, [], ◌∷◌, any, All,
  Bool-cases,
}
use yucca.Common.Monad.{ok, err}
use yucca.Database.{constraint, delete_rows}
use yucca.Orchestrator.{Tables}
use yucca.Orchestrator.Repositories.{delete_repository}

-- No row but the repository's own is about it.
pub record IsBare (id : ℕ) (t : Tables) : Type 0 where
  pub local_metrics : All (λ m. m.id ≢ id) t.local_metrics
  pub paths : All (λ p. p.id ≢ id) t.paths
  pub repository_schedules : All (λ s. s.repository ≢ id) t.repository_schedules
  pub runs : All (λ r. r.repository_id ≢ id) t.runs

All-delete :
    {A : Type 0} (key : A → ℕ) (id : ℕ) (rows : List A)
    → All (λ x. key x ≢ id) (delete_rows (λ x. key x == id) rows)
All-delete key id [] = tt
All-delete key id (x ∷ rows) = elim (Bool-cases (key x == id)) [
  | inl gone ↦ rw gone (All-delete key id rows)
  | inr kept ↦ rw kept (nat_eq-ne (key x) id kept, All-delete key id rows)
]

-- Deleting a repository removes every row about it. If the Immich integration holds it the deletion
-- throws, the repository stays, and yet its metrics, paths, schedules and runs are gone.
pub delete_repository-cases :
    (id : ℕ) (t : Tables)
    → IsBare id (delete_repository id t).1
      × (((any (λ i. i.id == id) t.integrations ≡ false)
            × ((delete_repository id t).0 ≡ ok tt)
            × All (λ r. r.id ≢ id) (delete_repository id t).1.repositories)
          ⊎ ((any (λ i. i.id == id) t.integrations ≡ true)
              × ((delete_repository id t).0 ≡ err constraint)
              × ((delete_repository id t).1.repositories ≡ t.repositories)))
unfolding delete_repository
delete_repository-cases id t = elim (Bool-cases (any (λ i. i.id == id) t.integrations)) [
  | inl held ↦ rw held (
    record {
      local_metrics = All-delete (λ m. m.id) id t.local_metrics;
      paths = All-delete (λ p. p.id) id t.paths;
      repository_schedules = All-delete (λ s. s.repository) id t.repository_schedules;
      runs = All-delete (λ r. r.repository_id) id t.runs;
    },
    inr (refl, refl, refl),
  )
  | inr free ↦ rw free (
    record {
      local_metrics = All-delete (λ m. m.id) id t.local_metrics;
      paths = All-delete (λ p. p.id) id t.paths;
      repository_schedules = All-delete (λ s. s.repository) id t.repository_schedules;
      runs = All-delete (λ r. r.repository_id) id t.runs;
    },
    inl (refl, refl, All-delete (λ r. r.id) id t.repositories),
  )
]
