-- ===== src/Database.antt =====
-- The PostgreSQL tables that packages/yucca-api, yucca-admin-api and yucca-metrics-worker share
-- (yucca-api/src/schema/tables), and the queries of their repositories. Ids are UUIDs, which are only
-- compared, so they are numbers, and so are times, in milliseconds. The ids and the default times that
-- PostgreSQL generates are arguments. A violated unique or foreign key is the error `constraint`, a
-- missing row under `executeTakeFirstOrThrow` is `no_result`.
pub mod Rows
pub mod Pages
use yucca.Common.{
  ℕ, ◌+◌, ◌==◌, Bool, true, false, ◌&&◌, ◌||◌, not, Option, none, some, List, [], ◌∷◌, ◌++◌, map,
  select, find, any, String, if◌then◌else◌, ltb, leb, take,
}
use yucca.Common.Monad.{
  Result, ok, err, Action, pure, throw, gets, or_throw, throw_if, modify, ◌>>=◌, ◌>>◌,
}
use text.Mathlib.Text.{◌==◌ as str_eq}

pub data Error : Type 0 where
  unauthorized bad_request internal conflict : String → Error
  no_result constraint : Error

pub record User : Type 0 where
  pub id : ℕ
  pub sub : String
  pub name : String
  pub email : String
  pub disabled : Bool

pub record Session : Type 0 where
  pub id : ℕ
  pub user_id : ℕ
  pub access_token : String

pub record Repository : Type 0 where
  pub id : ℕ
  pub user_id : ℕ
  pub worm : Bool
  pub name : String

-- `RepositoryMetricsTable`; a time that is not set is `none`.
pub record Metrics : Type 0 where
  pub id : ℕ
  pub size_bytes : ℕ
  pub last_started : Option ℕ
  pub last_backup : Option ℕ
  pub last_successful_backup : Option ℕ
  pub last_backup_duration : Option ℕ

pub record History : Type 0 where
  pub id : ℕ
  pub repository_id : ℕ
  pub created_at : ℕ
  pub size_bytes : Option ℕ
  pub started : Option ℕ
  pub backup : Option ℕ
  pub successful_backup : Option ℕ
  pub backup_duration : Option ℕ

-- a row of `repositoryMeter`, and of `repositoryMeterHistory`
pub record Meter : Type 0 where
  pub repository_id : ℕ
  pub size_bytes : ℕ
  pub object_count : ℕ
  pub timestamp : ℕ

pub record Db : Type 0 where
  pub users : List User
  pub sessions : List Session
  pub repositories : List Repository
  pub metrics : List Metrics
  pub history : List History
  pub meter : List Meter
  pub meter_history : List Meter

abbrev pub Query : Type 0 → Type 0
Query A = Action Error Db A

-- `UPDATE … SET … WHERE p`
abbrev pub update_rows : {A : Type 0} → (A → Bool) → (A → A) → List A → List A
update_rows p f [] = []
update_rows p f (x ∷ xs) = (if p x then f x else x) ∷ update_rows p f xs

-- `DELETE … WHERE p`
abbrev pub delete_rows : {A : Type 0} → (A → Bool) → List A → List A
delete_rows p [] = []
delete_rows p (x ∷ xs) = if p x then delete_rows p xs else x ∷ delete_rows p xs

-- A field of an `Updateable` that is `undefined` stays as it is.
abbrev pub set_or : {A : Type 0} → Option A → A → A
set_or none old = old
set_or (some new) old = new
