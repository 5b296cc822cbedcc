-- ===== src/Orchestrator/Integrations.antt =====
-- packages/yucca-sdk/orchestration-api/src/services/integrations.service.ts: the paths that the Immich
-- integration backs up. `join` of node:path and the directory of the agent's state are arguments.
pub mod Selected
use text.Mathlib.Text.{◌==◌ as str_eq}
use yucca.Common.{
  ℕ, ◌==◌, Bool, true, false, Option, none, some, List, [], ◌∷◌, ◌++◌, String, if◌then◌else◌,
}
use yucca.Common.Monad.{gets, skip, ◌>>=◌, ◌>>◌}
use yucca.Common.Sets.{contains, dedupe, nat_Eq, string_Eq}
use yucca.Orchestrator.{
  Tables, Query, Integration, ImmichConfiguration, Libraries, all_libraries, selected,
}
use yucca.Orchestrator.Paths.{sync_paths}

pub record Library : Type 0 where
  pub id : ℕ
  pub import_paths : List String

-- `ImmichIntegration`, what Immich tells of itself
pub record Immich : Type 0 where
  pub data_path : String
  pub data_folders : List String
  pub libraries : List Library

abbrev pub library_paths : (ℕ → Bool) → List Library → List String
library_paths chosen [] = []
library_paths chosen (l ∷ ls) =
    let rest = library_paths chosen ls in if chosen l.id then l.import_paths ++ rest else rest

abbrev pub is_selected : Libraries → ℕ → Bool
is_selected all_libraries id = true
is_selected (selected ids) id = contains ids id

module _ (join : String → String → String) (state_path : String) where
  abbrev pub folder_paths : Immich → List String → List String
  folder_paths immich [] = []
  folder_paths immich (f ∷ fs) =
      let rest = folder_paths immich fs in
      if contains immich.data_folders f then join immich.data_path f ∷ rest else rest

  unfoldable pub get_immich_backup_paths : ImmichConfiguration → Immich → List String
  get_immich_backup_paths config immich = dedupe (
      folder_paths immich config.data_folders
      ++ (if config.backup_configuration then state_path ∷ [] else [])
      ++ library_paths (is_selected config.libraries) immich.libraries)

  unfoldable pub sync_immich_repository_paths : ℕ → ImmichConfiguration → Immich → Query (Unit {0})
  unfolding get_immich_backup_paths
  sync_immich_repository_paths id config immich =
      sync_paths id (get_immich_backup_paths config immich)

  -- `repositoryIntegrationImmich.get`
  abbrev pub first : List Integration → Option Integration
  first [] = none
  first (i ∷ is) = some i

  abbrev pub sync_first : Option Integration → Immich → Query (Unit {0})
  sync_first none immich = skip
  sync_first (some i) immich = sync_immich_repository_paths i.id i.configuration immich

  unfoldable pub on_module_config_update : Option Immich → Query (Unit {0})
  unfolding sync_immich_repository_paths
  on_module_config_update none = skip
  on_module_config_update (some immich) = do
    integration ← gets (λ t. first t.integrations)
    sync_first integration immich
