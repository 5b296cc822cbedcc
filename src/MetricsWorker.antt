-- ===== src/MetricsWorker.antt =====
-- packages/yucca-metrics-worker/src: services/metrics.service.ts with repositories/{rgw,meter,repository}
-- .repository.ts. The admin API of RadosGW is an argument. A bucket is named by the id of its repository,
-- so its name is a number too. What is logged and recorded on the gauges is left out.
pub mod Sync
pub mod Stream
mod Tests
use yucca.Common.{
  ℕ, zero, suc, ◌==◌, Bool, true, false, not, Option, none, some, List, [], ◌∷◌, ◌++◌, find, any,
  map, length, get_last?, ltb, if◌then◌else◌,
}
use yucca.Common.Monad.{Result, ok, err, Action, pure, gets, throw_if, modify, ◌>>=◌, ◌>>◌}
use yucca.Database.{Db, Query, Repository, Meter, Error, internal, constraint, update_rows}

pub record Usage : Type 0 where
  pub num_objects : Option ℕ
  pub size_actual : Option ℕ

-- `RgwBucketEntry`, of whose usage only the category `rgw.main` is read
pub record Entry : Type 0 where
  pub bucket : ℕ
  pub usage : Option Usage

pub record BucketStats : Type 0 where
  pub bucket : ℕ
  pub objects : ℕ
  pub bytes : ℕ

abbrev pub or_zero : Option ℕ → ℕ
or_zero none = 0
or_zero (some n) = n

abbrev pub to_stats : Entry → BucketStats
to_stats e = elim e.usage [
  | none ↦ record { bucket = e.bucket; objects = 0; bytes = 0 }
  | some u ↦ record {
    bucket = e.bucket;
    objects = or_zero u.num_objects;
    bytes = or_zero u.size_actual;
  }
]

-- `getBucketStats`, from the answer to its request
abbrev pub get_bucket_stats : Result Error (List Entry) → Result Error (List BucketStats)
get_bucket_stats (err e) = err e
get_bucket_stats (ok entries) = ok (map to_stats entries)

-- `getBucketStatsStream`, from the answers to its requests by their marker. The loop runs on fuel:
-- `none` when it runs out.
unfoldable pub get_bucket_stats_stream :
    ℕ
    → (page_size : ℕ) → (admin_request : Option ℕ → Result Error (List Entry)) → (marker : Option ℕ)
    → Option (Result Error (List BucketStats))
get_bucket_stats_stream zero page_size admin_request marker = none
get_bucket_stats_stream (suc fuel) page_size admin_request marker = elim (admin_request marker) [
  | err e ↦ some (err e)
  | ok entries ↦ elim (get_last? entries) [
    | none ↦ some (ok (map to_stats entries))
    | some last ↦
        let rest = get_bucket_stats_stream fuel page_size admin_request (some last.bucket) in
        if ltb (length entries) page_size then some (ok (map to_stats entries)) else elim rest [
          | none ↦ none
          | some (err e) ↦ some (err e)
          | some (ok stats) ↦ some (ok (map to_stats entries ++ stats))
        ]
  ]
]

abbrev pub set_reading : Meter → Meter → Meter
set_reading row m = record m {
  size_bytes = row.size_bytes;
  object_count = row.object_count;
  timestamp = row.timestamp;
}

-- `INSERT … ON CONFLICT (repositoryId) DO UPDATE`
abbrev pub upsert_meter : Meter → List Meter → List Meter
upsert_meter row rows =
    if any (λ m. m.repository_id == row.repository_id) rows
    then update_rows (λ m. m.repository_id == row.repository_id) (set_reading row) rows
    else rows ++ row ∷ []

-- `meter.record`, one transaction; the repository is a foreign key
unfoldable pub record_reading : Meter → Query (Unit {0})
record_reading row = do
  db ← gets (λ db. db)
  throw_if (not (any (λ r. r.id == row.repository_id) db.repositories)) constraint
  modify λ t. record t {
    meter = upsert_meter row t.meter;
    meter_history = t.meter_history ++ row ∷ [];
  }

-- the body of the loop of `sync`; a bucket without a repository is skipped. The clock
-- gives the time of a reading, by the number of those that are left after it.
unfoldable pub record_all : (ℕ → ℕ) → List Repository → List BucketStats → Query (Unit {0})
unfolding record_reading
record_all clock repositories [] = pure tt
record_all clock repositories (s ∷ stats) =
    let rest = record_all clock repositories stats in
    if any (λ r. r.id == s.bucket) repositories
    then record_reading (record {
      repository_id = s.bucket;
      size_bytes = s.bytes;
      object_count = s.objects;
      timestamp = clock (length stats);
    })
      >> rest
    else rest

-- `sync`: an error ends it and is only logged
unfoldable pub sync : (ℕ → ℕ) → Result Error (List Entry) → Db → Db
unfolding record_all
sync clock answer db = elim (get_bucket_stats answer) [
  | err e ↦ db
  | ok stats ↦ (record_all clock db.repositories stats db).1
]
