-- ===== src/MetricsWorker/Sync.antt =====
-- What a sync leaves in the tables of the meters.
use mathlib.Core.List.{append_assoc}
use mathlib.Core.Path.{subst, sym}
use yucca.Common.{
  ℕ, ◌==◌, ==_iff, nat_eq-ne, ◌≡◌, refl, ap, append_nil, ◌∙◌, ◌≢◌, inl, inr, true, false, Option,
  none, some, List, [], ◌∷◌, ◌++◌, find, any, map, length, arith, Bool-cases, Option-cases,
  if◌then◌else◌,
}
use yucca.Common.Monad.{ok, err}
use yucca.Database.{Db, Repository, Meter, Error, update_rows}
use yucca.YuccaApi.Repositories.{meter_of}
use yucca.MetricsWorker.{Entry, BucketStats, to_stats, set_reading, upsert_meter, record_all, sync}

abbrev pub reading : ℕ → BucketStats → Meter
reading now s = record {
  repository_id = s.bucket;
  size_bytes = s.bytes;
  object_count = s.objects;
  timestamp = now;
}

-- the readings of the buckets that have a repository
abbrev pub readings : (ℕ → ℕ) → List Repository → List BucketStats → List Meter
readings clock repositories [] = []
readings clock repositories (s ∷ stats) =
    if any (λ r. r.id == s.bucket) repositories
    then reading (clock (length stats)) s ∷ readings clock repositories stats
    else readings clock repositories stats

-- the last of them for a repository, or else what there was
abbrev pub latest : ℕ → List Meter → Option Meter → Option Meter
latest id [] old = old
latest id (m ∷ ms) old = latest id ms (if m.repository_id == id then some m else old)

abbrev meter_in : ℕ → List Meter → Option Meter
meter_in id = find (λ m. m.repository_id == id)

meter-update_self :
    (id : ℕ) (row : Meter) (rows : List Meter) (m : Meter)
    → row.repository_id ≡ id
    → meter_in id rows ≡ some m
    → meter_in id (update_rows (λ m. m.repository_id == row.repository_id) (set_reading row) rows)
      ≡ some row
meter-update_self id row [] m e f = cc
meter-update_self id row (x ∷ rows) m e f = ground (arith, meter-update_self id row rows m e)

meter-update_ne :
    (id : ℕ) (row : Meter) (rows : List Meter)
    → row.repository_id ≢ id
    → meter_in id (update_rows (λ m. m.repository_id == row.repository_id) (set_reading row) rows)
      ≡ meter_in id rows
meter-update_ne id row [] n = refl
meter-update_ne id row (x ∷ rows) n = ground (arith, meter-update_ne id row rows n)

meter-append :
    (id : ℕ) (rows : List Meter) (x : Meter)
    → meter_in id (rows ++ x ∷ []) ≡ elim (meter_in id rows) [
      | none ↦ (if x.repository_id == id then some x else none)
      | some m ↦ some m
    ]
meter-append id [] x = refl
meter-append id (y ∷ rows) x = elim (Bool-cases (y.repository_id == id)) [
  | inl hit ↦ rw hit refl
  | inr miss ↦ rw miss (meter-append id rows x)
]

any-found :
    (id : ℕ) (rows : List Meter) (m : Meter)
    → meter_in id rows ≡ some m
    → any (λ m. m.repository_id == id) rows ≡ true
any-found id [] m e = cc
any-found id (x ∷ rows) m e = ground (arith, any-found id rows m)

any-absent :
    (id : ℕ) (rows : List Meter)
    → meter_in id rows ≡ none
    → any (λ m. m.repository_id == id) rows ≡ false
any-absent id [] e = refl
any-absent id (x ∷ rows) e = ground (arith, any-absent id rows)

upsert-meter_in :
    (id : ℕ) (row : Meter) (rows : List Meter)
    → meter_in id (upsert_meter row rows)
      ≡ (if row.repository_id == id then some row else meter_in id rows)
upsert-meter_in id row rows = elim (Bool-cases (row.repository_id == id)) [
  | inl same ↦
      let e : row.repository_id ≡ id = (==_iff row.repository_id id).0 same in
      elim (Option-cases (meter_in id rows)) [
        | inl absent ↦ ground (arith, any-absent id rows absent, meter-append id rows row)
        | inr (m, found) ↦
            ground (arith, any-found id rows m found, meter-update_self id row rows m e found)
      ]
  | inr other ↦
      let n = nat_eq-ne row.repository_id id other in
      elim (Option-cases (meter_in id rows)) [
        | inl absent ↦ ground (arith, meter-append id rows row, meter-update_ne id row rows n)
        | inr (m, found) ↦ ground (arith, meter-append id rows row, meter-update_ne id row rows n)
      ]
]

abbrev recorded : Meter → Db → Db
recorded row db = record db {
  meter = upsert_meter row db.meter;
  meter_history = db.meter_history ++ row ∷ [];
}

abbrev recorded_all : List Meter → Db → Db
recorded_all [] db = db
recorded_all (row ∷ rows) db = recorded_all rows (recorded row db)

record_all-recorded :
    (clock : ℕ → ℕ) (repositories : List Repository) (stats : List BucketStats) (db : Db)
    → db.repositories ≡ repositories
    → record_all clock repositories stats db
      ≡ (ok tt, recorded_all (readings clock repositories stats) db)
unfolding record_all
record_all-recorded clock repositories [] db e = refl
record_all-recorded clock repositories (s ∷ stats) db e =
    elim (Bool-cases (any (λ r. r.id == s.bucket) repositories)) [
      | inl known ↦ ground (
        arith,
        record_all-recorded clock repositories stats
            (recorded (reading (clock (length stats)) s) db) e,
      )
      | inr unknown ↦ ground (arith, record_all-recorded clock repositories stats db e)
    ]

recorded_all-meter :
    (id : ℕ) (rows : List Meter) (db : Db)
    → meter_of id (recorded_all rows db) ≡ latest id rows (meter_of id db)
recorded_all-meter id [] db = refl
recorded_all-meter id (row ∷ rows) db =
    recorded_all-meter id rows (recorded row db)
    ∙ ap (latest id rows) (upsert-meter_in id row db.meter)

recorded_all-history :
    (rows : List Meter) (db : Db) → (recorded_all rows db).meter_history ≡ db.meter_history ++ rows
recorded_all-history [] db = sym (append_nil db.meter_history)
recorded_all-history (row ∷ rows) db =
    recorded_all-history rows (recorded row db) ∙ append_assoc db.meter_history (row ∷ []) rows

recorded_all-rest :
    (rows : List Meter) (db : Db)
    → record (recorded_all rows db) { meter = db.meter; meter_history = db.meter_history } ≡ db
recorded_all-rest [] db = refl
recorded_all-rest (row ∷ rows) db = ground (arith, recorded_all-rest rows (recorded row db))

-- A sync that RadosGW answers sets the meter of every repository to the last reading of its bucket, if it
-- has one, appends one row per reading to the history in order, and skips the buckets without a
-- repository. Every other table stays as it is, and so do all tables when RadosGW fails.
pub sync-meter :
    (clock : ℕ → ℕ) (entries : List Entry) (e : Error) (db : Db)
    → (sync clock (err e) db ≡ db)
      × ((id : ℕ)
          → meter_of id (sync clock (ok entries) db)
            ≡ latest id (readings clock db.repositories (map to_stats entries)) (meter_of id db))
      × ((sync clock (ok entries) db).meter_history
          ≡ db.meter_history ++ readings clock db.repositories (map to_stats entries))
      × (record (sync clock (ok entries) db) { meter = db.meter; meter_history = db.meter_history }
          ≡ db)
unfolding sync
sync-meter clock entries e db =
    let stats : List BucketStats = map to_stats entries in
    let done : recorded_all (readings clock db.repositories stats) db ≡ sync clock (ok entries) db =
      ap (λ p. p.1) (sym (record_all-recorded clock db.repositories stats db refl)) in
    let rows : List Meter = readings clock db.repositories stats in
    (
      refl,
      (λ id.
          subst (λ d. meter_of id d ≡ latest id rows (meter_of id db)) done
            (recorded_all-meter id rows db)),
      subst (λ d. d.meter_history ≡ db.meter_history ++ rows) done (recorded_all-history rows db),
      subst (λ d. record d { meter = db.meter; meter_history = db.meter_history } ≡ db) done
          (recorded_all-rest rows db),
    )
