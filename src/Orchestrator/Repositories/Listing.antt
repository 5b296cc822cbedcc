-- ===== src/Orchestrator/Repositories/Listing.antt =====
-- `getRepositories` of packages/yucca-sdk/orchestration-api/src/services/repository.service.ts: the rows of
-- the agent joined with what the backends list.
use yucca.Common.{
  ℕ, ◌==◌, ◌≡◌, refl, ap, ◌∙◌, sym, ◌≢◌, inl, inr, Bool, true, false, ◌&&◌, not, Option, none, some,
  List, [], ◌∷◌, ◌++◌, any, find, select, map, arith, Bool-cases, Option-cases, if◌then◌else◌,
}
use yucca.Common.Monad.{Result, ok, err, Result-cases}
use yucca.Database.{Error, internal, delete_rows}
use yucca.Orchestrator.{Tables, BackendRow, RepositoryRow}
use yucca.Orchestrator.Paths.{paths_in}
use yucca.Orchestrator.Repositories.{Remote, Backend, Configuration, LocalRepository, metrics_of}

-- `remoteRepositories[backendId][repository.id] = repository`
abbrev pub put : Remote → List Remote → List Remote
put r [] = r ∷ []
put r (x ∷ xs) = if x.id == r.id then r ∷ xs else x ∷ put r xs

abbrev pub put_all : List Remote → List Remote → List Remote
put_all [] acc = acc
put_all (r ∷ rs) acc = put_all rs (put r acc)

-- what one backend lists; an error is logged, and lists nothing
abbrev pub listed : Result Error (List Remote) → List Remote
listed (err e) = []
listed (ok list) = put_all list []

pub record Listed : Type 0 where
  pub backend : BackendRow
  pub list : List Remote

abbrev pub remote_repositories : (ℕ → Backend) → List BackendRow → List Listed
remote_repositories backend [] = []
remote_repositories backend (b ∷ bs) =
    record { backend = b; list = listed (backend b.id).get_repositories }
    ∷ remote_repositories backend bs

abbrev pub backend_list : ℕ → List Listed → Option Listed
backend_list id = find (λ l. l.backend.id == id)

-- `delete remoteRepositories[backendId][remoteId]`
abbrev pub forget : ℕ → ℕ → List Listed → List Listed
forget backend_id remote_id [] = []
forget backend_id remote_id (l ∷ ls) =
    (if l.backend.id == backend_id
      then record l { list = delete_rows (λ r. r.id == remote_id) l.list }
      else l)
    ∷ forget backend_id remote_id ls

abbrev pub configuration_of : RepositoryRow → Tables → Configuration
configuration_of r t = record {
  paths = paths_in r.id t.paths;
  retention_policy = r.retention_policy;
}

-- the entry of a row, whose remote repository is listed or not
abbrev pub to_entry : Tables → RepositoryRow → BackendRow → Option Remote → LocalRepository
to_entry t r b none = record {
  id = r.id;
  name = "Unknown";
  worm = false;
  metrics = some (metrics_of r.id t);
  configuration = some (configuration_of r t);
  primary = record { id = r.backend_id; kind = b.kind; online = false };
}
to_entry t r b (some remote) = record {
  id = r.id;
  name = remote.name;
  worm = remote.worm;
  metrics = some (metrics_of r.id t);
  configuration = some (configuration_of r t);
  primary = record { id = r.backend_id; kind = b.kind; online = true };
}

-- The loop over the rows. A row whose backend is gone is a `TypeError`.
unfoldable pub merge :
    Tables → List RepositoryRow → List Listed → Result Error (List LocalRepository × List Listed)
merge t [] remotes = ok ([], remotes)
merge t (r ∷ rows) remotes =
    let rest = merge t rows (forget r.backend_id r.remote_id remotes) in
    elim (backend_list r.backend_id remotes) [
      | none ↦ err (internal "TypeError")
      | some l ↦ elim rest [
        | err e ↦ err e
        | ok (entries, left) ↦
            ok (to_entry t r l.backend (find (λ x. x.id == r.remote_id) l.list) ∷ entries, left)
      ]
    ]

-- a remote repository that no row is linked to
abbrev pub to_unlinked : BackendRow → Remote → LocalRepository
to_unlinked b r = record {
  id = r.id;
  name = r.name;
  worm = r.worm;
  metrics = r.metrics;
  configuration = none;
  primary = record { id = b.id; kind = b.kind; online = true };
}

abbrev pub unlinked : List Listed → List LocalRepository
unlinked [] = []
unlinked (l ∷ ls) = map (to_unlinked l.backend) l.list ++ unlinked ls

unfoldable pub get_repositories : (ℕ → Backend) → Tables → Result Error (List LocalRepository)
unfolding merge
get_repositories backend t =
    elim (merge t t.repositories (remote_repositories backend t.backends)) [
      | err e ↦ err e
      | ok (entries, left) ↦ ok (entries ++ unlinked left)
    ]

-- A row is linked to this repository of this backend.
abbrev pub is_linked : List RepositoryRow → ℕ → Remote → Bool
is_linked rows backend_id r = any (λ x. (x.backend_id == backend_id) && (x.remote_id == r.id)) rows

-- the lists without what rows are linked to
abbrev pub without : List RepositoryRow → List Listed → List Listed
without rows [] = []
without rows (l ∷ ls) =
    record l { list = select (λ r. not (is_linked rows l.backend.id r)) l.list } ∷ without rows ls

without-nil : (ls : List Listed) → without [] ls ≡ ls
without-nil [] = refl
without-nil (l ∷ ls) = ground (arith, without-nil ls, all l.list)
  where
    all : (rs : List Remote) → select (λ r. true) rs ≡ rs
    all [] = refl
    all (r ∷ rs) = ap (λ t. r ∷ t) (all rs)

select-forget :
    (row : RepositoryRow) (rows : List RepositoryRow) (id : ℕ) (rs : List Remote)
    → row.backend_id ≡ id
    → select (λ r. not (is_linked rows id r)) (delete_rows (λ r. r.id == row.remote_id) rs)
      ≡ select (λ r. not (is_linked (row ∷ rows) id r)) rs
select-forget row rows id [] e = refl
select-forget row rows id (r ∷ rs) e = ground (arith, select-forget row rows id rs e)

select-elsewhere :
    (row : RepositoryRow) (rows : List RepositoryRow) (id : ℕ) (rs : List Remote)
    → row.backend_id ≢ id
    → select (λ r. not (is_linked rows id r)) rs
      ≡ select (λ r. not (is_linked (row ∷ rows) id r)) rs
select-elsewhere row rows id [] n = refl
select-elsewhere row rows id (r ∷ rs) n = ground (arith, select-elsewhere row rows id rs n)

without-forget :
    (row : RepositoryRow) (rows : List RepositoryRow) (ls : List Listed)
    → without rows (forget row.backend_id row.remote_id ls) ≡ without (row ∷ rows) ls
without-forget row rows [] = refl
without-forget row rows (l ∷ ls) = elim (Bool-cases (l.backend.id == row.backend_id)) [
  | inl same ↦
      let e : row.backend_id ≡ l.backend.id = ground arith in
      ground (arith, without-forget row rows ls, select-forget row rows l.backend.id l.list e)
  | inr other ↦
      let n : row.backend_id ≢ l.backend.id = λ e. ground arith in
      ground (arith, without-forget row rows ls, select-elsewhere row rows l.backend.id l.list n)
]

to_entry-lem :
    (t : Tables) (r : RepositoryRow) (b : BackendRow) (o : Option Remote)
    → ((to_entry t r b o).id ≡ r.id)
      × ((to_entry t r b o).configuration ≡ some (configuration_of r t))
to_entry-lem t r b none = (refl, refl)
to_entry-lem t r b (some x) = (refl, refl)

merge-left :
    (t : Tables) (rows : List RepositoryRow) (remotes left : List Listed)
    (entries : List LocalRepository)
    → merge t rows remotes ≡ ok (entries, left)
    → (left ≡ without rows remotes)
      × (map (λ x. x.id) entries ≡ map (λ x. x.id) rows)
      × (map (λ x. x.configuration) entries ≡ map (λ x. some (configuration_of x t)) rows)
unfolding merge
merge-left t [] remotes left entries e = ground (arith, without-nil remotes)
merge-left t (r ∷ rows) remotes left entries e =
    elim (Option-cases (backend_list r.backend_id remotes)) [
      | inl gone ↦ absurd (ground arith)
      | inr (l, found) ↦
          elim (Result-cases (merge t rows (forget r.backend_id r.remote_id remotes))) [
            | inr (x, failed) ↦ absurd (ground arith)
            | inl ((entries', left'), merged) ↦
                let h =
                  merge-left t rows (forget r.backend_id r.remote_id remotes) left' entries'
                    merged in
                let o : Option Remote = find (λ x. x.id == r.remote_id) l.list in
                let here : (to_entry t r l.backend o ∷ entries' ≡ entries) × (left' ≡ left) =
                  ground arith in
                let k = to_entry-lem t r l.backend o in
                (
                  cc (here.1, h.0, without-forget r rows remotes),
                  sym (ap (λ es. map (λ x. x.id) es) here.0) ∙ cc (h.1, k.0),
                  sym (ap (λ es. map (λ x. x.configuration) es) here.0) ∙ cc (h.2, k.1),
                )
          ]
    ]

-- If the list of repositories is given, it is first one entry for each row of the agent, in order, under
-- the row's id and with its configuration, and then exactly the repositories of the backends that no row
-- is linked to, which have no configuration.
pub get_repositories-entries :
    (backend : ℕ → Backend) (t : Tables) (list : List LocalRepository)
    → get_repositories backend t ≡ ok list
    → (entries : List LocalRepository) × (list
        ≡ entries ++ unlinked (without t.repositories (remote_repositories backend t.backends)))
      × (map (λ x. x.id) entries ≡ map (λ x. x.id) t.repositories)
      × (map (λ x. x.configuration) entries ≡ map (λ x. some (configuration_of x t)) t.repositories)
unfolding get_repositories
get_repositories-entries backend t list e =
    let remotes : List Listed = remote_repositories backend t.backends in
    elim (Result-cases (merge t t.repositories remotes)) [
      | inr (x, failed) ↦ absurd (ground arith)
      | inl ((entries, left), merged) ↦
          let h = merge-left t t.repositories remotes left entries merged in
          (entries, ground (arith, h.0), h.1, h.2)
    ]
