-- ===== src/MetricsWorker/Tests.antt =====
-- The theorems on the worker at concrete answers of RadosGW.
use yucca.Common.{
  ◌-◌, ℕ, ◌≡◌, refl, false, Option, none, some, List, [], ◌∷◌, ◌++◌, arith, map, take,
}
use yucca.Common.Monad.{Result, ok, err}
use yucca.Database.{Db, Error, internal}
use yucca.Database.Pages.{where_cursor}
use yucca.YuccaApi.Repositories.{meter_of}
use yucca.MetricsWorker.{Entry, to_stats, sync, get_bucket_stats_stream}
use yucca.MetricsWorker.Sync.{readings, latest, sync-meter}
use yucca.MetricsWorker.Stream.{after_marker, get_bucket_stats_stream-all}

abbrev tables : Db
tables = record {
  users = [];
  sessions = [];
  repositories = record { id = 5; user_id = 1; worm = false; name = "r" } ∷ [];
  metrics = [];
  history = [];
  meter = [];
  meter_history = [];
}

abbrev bucket : ℕ → ℕ → Entry
bucket id size = record {
  bucket = id;
  usage = some (record { num_objects = some 1; size_actual = some size });
}

abbrev buckets : List Entry
buckets = bucket 4 40 ∷ bucket 5 50 ∷ bucket 6 60 ∷ []

abbrev radosgw : Option ℕ → Result Error (List Entry)
radosgw marker = ok (take 2 (where_cursor after_marker marker buckets))

abbrev clock : ℕ → ℕ
clock n = 9 - n

sync-meter_example :
    (sync clock (err (internal "down")) tables ≡ tables)
    × ((id : ℕ)
        → meter_of id (sync clock (ok buckets) tables)
          ≡ latest id
              (readings clock tables.repositories (map to_stats buckets))
              (meter_of id tables))
    × ((sync clock (ok buckets) tables).meter_history
        ≡ tables.meter_history ++ readings clock tables.repositories (map to_stats buckets))
    × (record (sync clock (ok buckets) tables) {
      meter = tables.meter;
      meter_history = tables.meter_history;
    }
        ≡ tables)
sync-meter_example = sync-meter clock buckets (internal "down") tables

get_bucket_stats_stream-all_example :
    get_bucket_stats_stream 4 2 radosgw none ≡ some (ok (map to_stats buckets))
get_bucket_stats_stream-all_example =
    get_bucket_stats_stream-all 2 buckets radosgw (ground arith) (λ marker. refl)
      ((refl, (refl, tt)), ((refl, tt), (tt, tt)))
