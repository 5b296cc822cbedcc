-- ===== src/Orchestrator/Paths.antt =====
-- packages/yucca-sdk/orchestration-api/src/repositories/repositoryPath.repository.ts, and the update of a
-- repository's paths by set differences (services/repository.service.ts, services/integrations.service.ts).
pub mod Sync
use text.Mathlib.Text.{◌==◌ as str_eq}
use text.Mathlib.TextEquality.{eq_iff}
use yucca.Common.{
  ℕ, ◌==◌, ==_iff, nat_eq-ne, ◌≡◌, refl, ap, ◌∙◌, sym, ◌≢◌, inl, inr, Bool, true, false, ◌&&◌, ◌||◌,
  not, Option, none, some, List, [], ◌∷◌, ◌++◌, any, select, map, arith, Bool-cases, if◌then◌else◌,
  String,
}
use yucca.Common.Monad.{
  Result, ok, err, Action, pure, throw, gets, or_throw, throw_if, modify, skip, ◌>>=◌, ◌>>◌,
}
use yucca.Common.Sets.{difference, dedupe, string_Eq}
use yucca.Database.{Error, constraint, delete_rows}
use yucca.Orchestrator.{Tables, Query, PathRow}

abbrev pub is_path : ℕ → String → PathRow → Bool
is_path id path p = (p.id == id) && str_eq p.path path

-- `repositoryPath.get`
abbrev pub paths_in : ℕ → List PathRow → List String
paths_in id [] = []
paths_in id (p ∷ rows) = if p.id == id then p.path ∷ paths_in id rows else paths_in id rows

-- `repositoryPath.create`: the primary key is the pair, and the repository is a foreign key
unfoldable pub create_path : ℕ → String → Query (Unit {0})
create_path id path = do
  db ← gets (λ db. db)
  throw_if (any (is_path id path) db.paths || not (any (λ r. r.id == id) db.repositories))
      constraint
  modify λ t. record t { paths = t.paths ++ record { id = id; path = path } ∷ [] }

-- `repositoryPath.delete`
unfoldable pub delete_path : ℕ → String → Query (Unit {0})
delete_path id path = modify λ t. record t { paths = delete_rows (is_path id path) t.paths }

unfoldable pub create_paths : ℕ → List String → Query (Unit {0})
create_paths id [] = skip
create_paths id (p ∷ ps) = create_path id p >> create_paths id ps

unfoldable pub delete_paths : ℕ → List String → Query (Unit {0})
delete_paths id [] = skip
delete_paths id (p ∷ ps) = delete_path id p >> delete_paths id ps

-- `removedPaths` are deleted, then `newPaths` are created
unfoldable pub sync_paths : ℕ → List String → Query (Unit {0})
unfolding create_paths delete_paths
sync_paths id requested = do
  current ← gets (λ db. paths_in id db.paths)
  delete_paths id (difference (dedupe current) (dedupe requested))
  create_paths id (difference (dedupe requested) (dedupe current))
