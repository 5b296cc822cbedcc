-- ===== src/Orchestrator/Integrations/Selected.antt =====
-- What the repository of the Immich integration has as paths (services/integrations.service.ts).
use mathlib.Core.Path.{fun_ext}
use text.Mathlib.Text.{◌==◌ as str_eq}
use yucca.Common.{
  ℕ, ◌==◌, ◌≡◌, refl, ap, ◌∙◌, ◌≢◌, inl, inr, Bool, true, ◌&&◌, ◌||◌, some, List, [], ◌∷◌, ◌++◌,
  any, arith, Bool-cases, String, if◌then◌else◌,
}
use yucca.Common.Monad.{ok}
use yucca.Common.Sets.{contains, nat_Eq, string_Eq}
use yucca.Common.Sets.Members.{contains-append, contains-dedupe_onto}
use yucca.Orchestrator.{
  Tables, Integration, ImmichConfiguration, Libraries, all_libraries, selected,
}
use yucca.Orchestrator.Paths.{paths_in, sync_paths}
use yucca.Orchestrator.Paths.Sync.{sync_paths-requested}
use yucca.Orchestrator.Integrations.{
  Library, Immich, library_paths, is_selected, folder_paths, get_immich_backup_paths,
  sync_immich_repository_paths, on_module_config_update,
}

contains-library_paths :
    (chosen : ℕ → Bool) (ls : List Library) (p : String)
    → contains (library_paths chosen ls) p ≡ any (λ l. chosen l.id && contains l.import_paths p) ls
contains-library_paths chosen [] p = refl
contains-library_paths chosen (l ∷ ls) p = elim (Bool-cases (chosen l.id)) [
  | inl chosen_too ↦ ground (
    arith,
    chosen_too,
    contains-append l.import_paths (library_paths chosen ls) p,
    contains-library_paths chosen ls p,
  )
  | inr other ↦ ground (arith, other, contains-library_paths chosen ls p)
]

module _ (join : String → String → String) (state_path : String) where
  -- whether a path is an import path of a library that the configuration names
  abbrev pub imported : Libraries → List Library → String → Bool
  imported all_libraries ls p = any (λ l. contains l.import_paths p) ls
  imported (selected ids) ls p =
      any (λ l. any (λ id. id == l.id) ids && contains l.import_paths p) ls

  -- whether a path is to be backed up
  abbrev pub wanted : ImmichConfiguration → Immich → String → Bool
  wanted config immich p =
      any (λ f. contains immich.data_folders f && str_eq (join immich.data_path f) p)
        config.data_folders
      || ((config.backup_configuration && str_eq state_path p)
          || imported config.libraries immich.libraries p)

  contains-any : (ids : List ℕ) (id : ℕ) → contains ids id ≡ any (λ x. x == id) ids
  contains-any [] id = refl
  contains-any (x ∷ ids) id = ground (arith, contains-any ids id)

  contains-selected :
      (libraries : Libraries) (ls : List Library) (p : String)
      → contains (library_paths (is_selected libraries) ls) p ≡ imported libraries ls p
  contains-selected all_libraries ls p = contains-library_paths (λ id. true) ls p
  contains-selected (selected ids) ls p =
      contains-library_paths (λ id. contains ids id) ls p
      ∙ ap (λ (t : ℕ → Bool). any (λ l. t l.id && contains l.import_paths p) ls)
          (fun_ext (contains-any ids))

  contains-folder_paths :
      (immich : Immich) (fs : List String) (p : String)
      → contains (folder_paths join state_path immich fs) p
        ≡ any (λ f. contains immich.data_folders f && str_eq (join immich.data_path f) p) fs
  contains-folder_paths immich [] p = refl
  contains-folder_paths immich (f ∷ fs) p = ground (arith, contains-folder_paths immich fs p)

  get_immich_backup_paths-wanted :
      (config : ImmichConfiguration) (immich : Immich) (p : String)
      → contains (get_immich_backup_paths join state_path config immich) p ≡ wanted config immich p
  unfolding get_immich_backup_paths
  get_immich_backup_paths-wanted config immich p =
      let folders = folder_paths join state_path immich config.data_folders in
      let own : List String = if config.backup_configuration then state_path ∷ [] else [] in
      let libraries = library_paths (is_selected config.libraries) immich.libraries in
      contains-dedupe_onto [] (folders ++ own ++ libraries) p
      ∙ ground (
        arith,
        contains-append (folders ++ own) libraries p,
        contains-append folders own p,
        contains-folder_paths immich config.data_folders p,
        contains-selected config.libraries immich.libraries p,
      )

  -- When Immich tells of itself anew, and the integration is configured for a repository that is there, the
  -- paths of that repository become exactly the wanted ones: the selected folders that Immich has, the state
  -- of the agent if it is asked for, and the import paths of the selected libraries. The paths of other
  -- repositories stay.
  pub on_module_config_update-wanted :
      (immich : Immich) (i : Integration) (is : List Integration) (t : Tables)
      → t.integrations ≡ i ∷ is
      → any (λ r. r.id == i.id) t.repositories ≡ true
      → ((on_module_config_update join state_path (some immich) t).0 ≡ ok tt)
        × ((p : String)
            → contains
                (paths_in i.id (on_module_config_update join state_path (some immich) t).1.paths)
                p
              ≡ wanted i.configuration immich p)
        × ((other : ℕ)
            → other ≢ i.id
            → paths_in other (on_module_config_update join state_path (some immich) t).1.paths
              ≡ paths_in other t.paths)
  unfolding on_module_config_update sync_immich_repository_paths
  on_module_config_update-wanted immich i is t e k =
      let paths = get_immich_backup_paths join state_path i.configuration immich in
      let (done, own, others, rest) = sync_paths-requested i.id paths t k in
      let step : on_module_config_update join state_path (some immich) t ≡ sync_paths i.id paths t =
        ground (arith, e) in
      (
        ap (λ r. r.0) step ∙ done,
        (λ p.
            ap (λ r. contains (paths_in i.id r.1.paths) p) step
            ∙ own p
            ∙ get_immich_backup_paths-wanted i.configuration immich p),
        (λ other n. ap (λ r. paths_in other r.1.paths) step ∙ others other n),
      )
