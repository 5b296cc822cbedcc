-- ===== src/Orchestrator/Tests.antt =====
-- The theorems on the agent at concrete tables, and runs of it.
use yucca.Common.{
  ℕ, ◌≡◌, refl, ◌≢◌, ◌⊎◌, true, false, none, some, List, [], ◌∷◌, ◌++◌, map, any, All, String, ◌==◌,
}
use yucca.Common.Monad.{ok, err}
use yucca.Common.Sets.{contains, string_Eq}
use yucca.Database.{constraint}
use yucca.Orchestrator.{
  Tables, ImmichConfiguration, all_libraries, local_backend, RepositoryRow, backup,
}
use yucca.Orchestrator.Paths.{paths_in, sync_paths, create_path, delete_path}
use yucca.Orchestrator.Integrations.{Immich, on_module_config_update}
use yucca.Orchestrator.Integrations.Selected.{wanted, on_module_config_update-wanted}
use yucca.Orchestrator.Paths.Sync.{sync_paths-requested}
use yucca.Orchestrator.Repositories.{
  Remote, Backend, Restic, LocalRepository, import_repository, delete_repository,
  default_retention_policy, infer_paths, Configuration, get_backend,
}
use yucca.Orchestrator.Repositories.Update.{UpdateDto, update_repository}
use yucca.Orchestrator.Repositories.Requested.{update_repository-requested}
use yucca.Orchestrator.Repositories.Import.{import_repository-ok}
use yucca.Orchestrator.Repositories.Deletion.{IsBare, delete_repository-cases}
use yucca.Orchestrator.Repositories.Listing.{
  get_repositories, unlinked, without, remote_repositories, configuration_of,
  get_repositories-entries, to_entry, to_unlinked,
}
use yucca.Orchestrator.Tasks.{
  System, Reachable, initial, launched, move, working, prepared, start, step, admit, launch,
}
use yucca.Orchestrator.Tasks.Cleanup.{IsOwned, Reachable-IsOwned}

abbrev remote : ℕ → Remote
remote id = record { id = id; name = "r"; worm = false; metrics = none }

abbrev disk : ℕ → Backend
disk b = record {
  create_repository = λ name worm. ok (remote 70);
  update_repository = λ id name. ok (remote id);
  get_repository = λ id. ok (remote id);
  get_repositories = ok (remote 70 ∷ remote 71 ∷ []);
  get_restic_endpoint = λ id. ok "/disk";
}

abbrev restic : Restic
restic = record {
  init = λ endpoint id. ok tt;
  key_list = λ endpoint id. ok tt;
  snapshots = λ endpoint id. ok (record { time = 1; paths = "/home" ∷ [] } ∷ []);
}

abbrev row_of : ℕ → ℕ → RepositoryRow
row_of id remote_id = record {
  id = id;
  remote_id = remote_id;
  backend_id = 3;
  retention_policy = none;
}

abbrev folders_only : ImmichConfiguration
folders_only = record {
  data_folders = "/library" ∷ [];
  backup_configuration = true;
  libraries = all_libraries;
}

abbrev tables : Tables
tables = record {
  backends = record { id = 3; kind = local_backend } ∷ [];
  repositories = row_of 1 70 ∷ [];
  paths = record { id = 1; path = "/a" } ∷ record { id = 1; path = "/b" } ∷ [];
  local_metrics = [];
  repository_schedules = [];
  runs = [];
  integrations = record { id = 1; schedule_id = 9; configuration = folders_only } ∷ [];
}

sync_paths-requested_example :
    ((sync_paths 1 ("/b" ∷ "/c" ∷ "/c" ∷ []) tables).0 ≡ ok tt)
    × ((p : String)
        → contains (paths_in 1 (sync_paths 1 ("/b" ∷ "/c" ∷ "/c" ∷ []) tables).1.paths) p
          ≡ contains ("/b" ∷ "/c" ∷ "/c" ∷ []) p)
    × ((other : ℕ)
        → other ≢ 1
        → paths_in other (sync_paths 1 ("/b" ∷ "/c" ∷ "/c" ∷ []) tables).1.paths
          ≡ paths_in other tables.paths)
    × (record (sync_paths 1 ("/b" ∷ "/c" ∷ "/c" ∷ []) tables).1 { paths = tables.paths } ≡ tables)
sync_paths-requested_example = sync_paths-requested 1 ("/b" ∷ "/c" ∷ "/c" ∷ []) tables refl

delete_repository-cases_example :
    IsBare 1 (delete_repository 1 tables).1
    × (((any (λ i. i.id == 1) tables.integrations ≡ false)
          × ((delete_repository 1 tables).0 ≡ ok tt)
          × All (λ r. r.id ≢ 1) (delete_repository 1 tables).1.repositories)
        ⊎ ((any (λ i. i.id == 1) tables.integrations ≡ true)
            × ((delete_repository 1 tables).0 ≡ err constraint)
            × ((delete_repository 1 tables).1.repositories ≡ tables.repositories)))
delete_repository-cases_example = delete_repository-cases 1 tables

abbrev shown : List LocalRepository
shown =
    to_entry tables (row_of 1 70) (record { id = 3; kind = local_backend }) (some (remote 70))
    ∷ to_unlinked (record { id = 3; kind = local_backend }) (remote 71)
    ∷ []

get_repositories-entries_example :
    (entries : List LocalRepository) × (shown
      ≡ entries
        ++ unlinked (without tables.repositories (remote_repositories disk tables.backends)))
    × (map (λ x. x.id) entries ≡ map (λ x. x.id) tables.repositories)
    × (map (λ x. x.configuration) entries
        ≡ map (λ x. some (configuration_of x tables)) tables.repositories)
unfolding get_repositories
get_repositories-entries_example = get_repositories-entries disk tables shown refl

abbrev imported : LocalRepository
imported = record {
  id = 2;
  name = "r";
  worm = false;
  metrics = some (record {
    size_bytes = 0;
    last_backup = none;
    last_successful_backup = none;
    last_backup_duration = none;
  });
  configuration =
      some (record { paths = "/home" ∷ []; retention_policy = some default_retention_policy });
  primary = record { id = 3; kind = local_backend; online = true };
}

import_repository-ok_example :
    (r : Remote) × (endpoint : String) × ((disk 3).get_repository 71 ≡ ok r)
    × ((import_repository disk restic 2 71 3 tables).1 ≡ record tables {
      repositories =
          tables.repositories
          ++ record {
            id = 2;
            remote_id = r.id;
            backend_id = 3;
            retention_policy = some default_retention_policy;
          }
            ∷ [];
    })
    × (imported.id ≡ 2)
    × (imported.configuration
        ≡ some (record {
          paths = infer_paths disk restic (restic.snapshots endpoint r.id);
          retention_policy = some default_retention_policy;
        }))
unfolding import_repository
import_repository-ok_example = import_repository-ok disk restic 2 71 3 tables imported refl

abbrev one_call : System
one_call = launched 1 5 backup none none (move 1 (prepared 5 backup) initial)

one_call-Reachable : Reachable one_call
one_call-Reachable =
    step _ _ (step _ _ start (admit initial 1 5 backup refl refl))
      (launch (move 1 (prepared 5 backup) initial) 1 5 backup none none refl)

Reachable-IsOwned_example : IsOwned one_call
Reachable-IsOwned_example = Reachable-IsOwned one_call-Reachable

abbrev two_calls : System
two_calls = launched 2 5 backup none none (
    launched 1 5 backup none none (move 2 (prepared 5 backup) (move 1 (prepared 5 backup) initial)))

-- Two backups of one repository that are asked for together are both admitted, and both run.
two_calls-Reachable :
    Reachable two_calls
    × (two_calls.calls 1 ≡ working 5 backup)
    × (two_calls.calls 2 ≡ working 5 backup)
two_calls-Reachable = (
  step _ _
      (step _ _
        (step _ _ (step _ _ start (admit initial 1 5 backup refl refl))
          (admit (move 1 (prepared 5 backup) initial) 2 5 backup refl refl))
        (launch (move 2 (prepared 5 backup) (move 1 (prepared 5 backup) initial)) 1 5 backup none
          none refl))
      (launch
        (launched 1 5 backup none none
          (move 2 (prepared 5 backup) (move 1 (prepared 5 backup) initial)))
        2 5 backup none none refl),
  refl,
  refl,
)

abbrev ask : UpdateDto
ask = record {
  name = none;
  paths = some ("/b" ∷ "/c" ∷ []);
  retention_policy = some (some default_retention_policy);
}

abbrev changed : LocalRepository
changed = record {
  id = 1;
  name = "r";
  worm = false;
  metrics = imported.metrics;
  configuration =
      some (record { paths = "/b" ∷ "/c" ∷ []; retention_policy = some default_retention_policy });
  primary = record { id = 3; kind = local_backend; online = true };
}

update_repository-requested_example :
    ((p : String)
      → contains (paths_in 1 (update_repository disk restic 1 ask none tables).1.paths) p
        ≡ contains ("/b" ∷ "/c" ∷ []) p)
    × ((c : Configuration) × (changed.configuration ≡ some c)
        × (c.paths ≡ paths_in 1 (update_repository disk restic 1 ask none tables).1.paths))
unfolding update_repository get_backend sync_paths create_path delete_path
update_repository-requested_example =
    update_repository-requested disk restic 1 ask ("/b" ∷ "/c" ∷ []) tables changed refl refl

abbrev immich : Immich
immich = record {
  data_path = "/data";
  data_folders = "/library" ∷ "/upload" ∷ [];
  libraries = record { id = 4; import_paths = "/photos" ∷ [] } ∷ [];
}

abbrev join : String → String → String
join a b = "/data/library"

on_module_config_update-wanted_example :
    ((on_module_config_update join "/state" (some immich) tables).0 ≡ ok tt)
    × ((p : String)
        → contains
            (paths_in 1 (on_module_config_update join "/state" (some immich) tables).1.paths)
            p
          ≡ wanted join "/state" folders_only immich p)
    × ((other : ℕ)
        → other ≢ 1
        → paths_in other (on_module_config_update join "/state" (some immich) tables).1.paths
          ≡ paths_in other tables.paths)
on_module_config_update-wanted_example =
    on_module_config_update-wanted join "/state" immich
      (record { id = 1; schedule_id = 9; configuration = folders_only }) [] tables refl refl
