-- ===== src/YuccaApi/Metrics/Upsert.antt =====
-- The upsert of a repository's metrics, and the history that it goes with.
use yucca.Common.{
  ℕ, ◌==◌, ==_iff, nat_eq-ne, ◌≡◌, refl, ◌≢◌, inl, inr, true, false, Option, none, some, List, [],
  ◌∷◌, ◌++◌, find, any, arith, Bool-cases, Option-cases, if◌then◌else◌,
}
use yucca.Database.{Db, Metrics, History, update_rows}
use yucca.YuccaApi.Repositories.{metrics_of}
use yucca.YuccaApi.Metrics.{Values, set_values, new_metrics, upsert_metrics}

-- what a row of the history sets
abbrev pub values_of : History → Values
values_of h = record {
  size_bytes = h.size_bytes;
  last_started = h.started;
  last_backup = h.backup;
  last_successful_backup = h.successful_backup;
  last_backup_duration = h.backup_duration;
}

abbrev pub note : ℕ → Values → Option Metrics → Option Metrics
note id v none = some (new_metrics id v)
note id v (some m) = some (set_values v m)

-- The latest values that the history of a repository gives, the older rows first.
abbrev pub replay : ℕ → List History → Option Metrics → Option Metrics
replay id [] m = m
replay id (h ∷ hs) m = replay id hs (if h.repository_id == id then note id (values_of h) m else m)

abbrev pub metrics_in : ℕ → List Metrics → Option Metrics
metrics_in id = find (λ m. m.id == id)

abbrev pub IsReplayed : Db → Type 0
IsReplayed db = (id : ℕ) → metrics_of id db ≡ replay id db.history none

replay-append :
    (id : ℕ) (hs : List History) (h : History) (m : Option Metrics)
    → replay id (hs ++ h ∷ []) m
      ≡ (if h.repository_id == id then note id (values_of h) (replay id hs m) else replay id hs m)
replay-append id [] h m = ground arith
replay-append id (k ∷ hs) h m = replay-append id hs h _

pub metrics-update_self :
    (id : ℕ) (v : Values) (rows : List Metrics) (m : Metrics)
    → metrics_in id rows ≡ some m
    → metrics_in id (update_rows (λ m. m.id == id) (set_values v) rows) ≡ some (set_values v m)
metrics-update_self id v [] m e = cc
metrics-update_self id v (x ∷ rows) m e = ground (arith, metrics-update_self id v rows m)

metrics-update_ne :
    (id other : ℕ) (v : Values) (rows : List Metrics)
    → other ≢ id
    → metrics_in id (update_rows (λ m. m.id == other) (set_values v) rows) ≡ metrics_in id rows
metrics-update_ne id other v [] n = refl
metrics-update_ne id other v (x ∷ rows) n = ground (arith, metrics-update_ne id other v rows n)

metrics-append :
    (id : ℕ) (rows : List Metrics) (x : Metrics)
    → metrics_in id rows ≡ none
    → metrics_in id (rows ++ x ∷ []) ≡ (if x.id == id then some x else none)
metrics-append id [] x e = refl
metrics-append id (y ∷ rows) x e = ground (arith, metrics-append id rows x)

metrics-append_found :
    (id : ℕ) (rows : List Metrics) (x m : Metrics)
    → metrics_in id rows ≡ some m
    → metrics_in id (rows ++ x ∷ []) ≡ some m
metrics-append_found id [] x m e = cc
metrics-append_found id (y ∷ rows) x m e = ground (arith, metrics-append_found id rows x m)

any-found :
    (id : ℕ) (rows : List Metrics) (m : Metrics)
    → metrics_in id rows ≡ some m
    → any (λ m. m.id == id) rows ≡ true
any-found id [] m e = cc
any-found id (x ∷ rows) m e = ground (arith, any-found id rows m)

any-absent :
    (id : ℕ) (rows : List Metrics) → metrics_in id rows ≡ none → any (λ m. m.id == id) rows ≡ false
any-absent id [] e = refl
any-absent id (x ∷ rows) e = ground (arith, any-absent id rows)

-- An upsert sets the values of its row, old or new, and leaves the other rows.
pub upsert_self :
    (id : ℕ) (v : Values) (rows : List Metrics)
    → metrics_in id (upsert_metrics id v rows) ≡ note id v (metrics_in id rows)
upsert_self id v rows = elim (Option-cases (metrics_in id rows)) [
  | inl absent ↦
      ground (arith, any-absent id rows absent, metrics-append id rows (new_metrics id v) absent)
  | inr (m, found) ↦
      ground (arith, any-found id rows m found, metrics-update_self id v rows m found)
]

pub upsert_ne :
    (id other : ℕ) (v : Values) (rows : List Metrics)
    → other ≢ id
    → metrics_in id (upsert_metrics other v rows) ≡ metrics_in id rows
upsert_ne id other v rows n = elim (Bool-cases (any (λ m. m.id == other) rows)) [
  | inl known ↦ ground (arith, metrics-update_ne id other v rows n)
  | inr new ↦ elim (Option-cases (metrics_in id rows)) [
    | inl absent ↦ ground (arith, metrics-append id rows (new_metrics other v) absent)
    | inr (m, found) ↦ ground (arith, metrics-append_found id rows (new_metrics other v) m found)
  ]
]

abbrev pub recorded : Db → History → Db
recorded db h = record db {
  metrics = upsert_metrics h.repository_id (values_of h) db.metrics;
  history = db.history ++ h ∷ [];
}

pub recorded-IsReplayed : (db : Db) (h : History) → IsReplayed db → IsReplayed (recorded db h)
recorded-IsReplayed db h r id = elim (Bool-cases (h.repository_id == id)) [
  | inl same ↦
      let e : h.repository_id ≡ id = (==_iff h.repository_id id).0 same in
      ground (
        arith,
        upsert_self h.repository_id (values_of h) db.metrics,
        replay-append id db.history h none,
        r id,
      )
  | inr other ↦ ground (
    arith,
    upsert_ne id h.repository_id (values_of h) db.metrics (nat_eq-ne h.repository_id id other),
    replay-append id db.history h none,
    r id,
  )
]
