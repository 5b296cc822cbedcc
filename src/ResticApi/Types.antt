-- ===== src/ResticApi/Types.antt =====
-- packages/restic-api/src/{enum,errors}.ts and dto/: the shared types, and the S3 client (a library
-- of Amazon's) as an interface. Repository and user ids are UUIDs, which the code only compares, so
-- they are numbers; object keys are texts, since the code builds them and takes them apart.
use yucca.Common.{
  ℕ, ◌≤◌, ◌≡◌, ◌≢◌, ◌⊎◌, Bool, true, Option, none, some, List, [], ◌∷◌, ◌++◌, Text, length, String,
}
use yucca.Common.Int.{ℤ}
use yucca.Common.Monad.{ok, err, Action}

pub data BlobType : Type 0 where
  data_blobs index keys locks snapshots : BlobType

-- What the S3 client throws: `NotFound`, another `S3ServiceException` with its HTTP status and its
-- name, or an error of the connection.
pub data Fault : Type 0 where
  missing : Fault
  service : ℕ → String → Fault
  connection : Fault

pub data Error : Type 0 where
  bad_request unauthorized forbidden not_found conflict not_implemented : String → Error
  s3_error checksum_mismatch : Error
  -- thrown inside a `try` and replaced by its `catch`
  fault : Fault → Error
  malformed : Error

pub record AuthDto : Type 0 where
  pub user : ℕ
  pub repository : ℕ
  pub write_once : Bool

-- A chunk of a stream is the list of its bytes.
abbrev pub Chunk : Type 0
Chunk = List ℕ

abbrev pub bytes : List Chunk → List ℕ
bytes [] = []
bytes (c ∷ cs) = c ++ bytes cs

-- `PutObjectCommandInput`
pub record Put : Type 0 where
  pub bucket : ℕ
  pub key : Text
  pub body : List Chunk
  pub if_none_match : Bool

-- `GetObjectCommandOutput`
pub record GetOutput : Type 0 where
  pub content_length : Option ℕ
  pub body : Option (List Chunk)
  pub etag : Option String
  pub content_type : Option String
  pub content_range : Option String

pub record Entry : Type 0 where
  pub key : Option Text
  pub size : Option ℕ

-- `ListObjectsV2CommandOutput`
pub record Listing : Type 0 where
  pub contents : Option (List Entry)
  pub key_count : Option ℕ

-- The S3 client and the store behind it. `object` observes what is stored; `chunks_read` is how many
-- chunks of the body an upload takes from the stream before it replies.
pub record S3 : Type 1 where
  pub Store : Type 0
  pub object : Store → ℕ → Text → Option (List ℕ)
  pub head_bucket : ℕ → Action Fault Store (Unit {0})
  pub create_bucket : ℕ → Action Fault Store (Unit {0})
  pub upload : Put → Action Fault Store (Unit {0})
  pub chunks_read : Put → Store → ℕ
  pub head_object : ℕ → Text → Action Fault Store (Option ℕ)
  pub list_objects : ℕ → Text → Action Fault Store Listing
  pub get_object : ℕ → Text → Option Text → Action Fault Store GetOutput
  pub delete_object : ℕ → Text → Action Fault Store (Unit {0})

-- S3's documented behaviour: reads change no object, an upload or a deletion changes no other object,
-- an upload with `If-None-Match: *` fails on a key that exists and leaves it, a successful upload has
-- read its body and stores it, and a successful deletion removes the object.
pub record IsS3 (c : S3) : Type 0 where
  pub head_bucket-object :
      (b : ℕ) (s : c.Store) (b' : ℕ) (k : Text)
      → c.object (c.head_bucket b s).1 b' k ≡ c.object s b' k
  pub create_bucket-object :
      (b : ℕ) (s : c.Store) (b' : ℕ) (k : Text)
      → c.object (c.create_bucket b s).1 b' k ≡ c.object s b' k
  pub head_object-object :
      (b : ℕ) (j : Text) (s : c.Store) (b' : ℕ) (k : Text)
      → c.object (c.head_object b j s).1 b' k ≡ c.object s b' k
  pub list_objects-object :
      (b : ℕ) (j : Text) (s : c.Store) (b' : ℕ) (k : Text)
      → c.object (c.list_objects b j s).1 b' k ≡ c.object s b' k
  pub get_object-object :
      (b : ℕ) (j : Text) (range : Option Text) (s : c.Store) (b' : ℕ) (k : Text)
      → c.object (c.get_object b j range s).1 b' k ≡ c.object s b' k
  pub upload-others :
      (p : Put) (s : c.Store) (b : ℕ) (k : Text)
      → (b ≢ p.bucket) ⊎ (k ≢ p.key)
      → c.object (c.upload p s).1 b k ≡ c.object s b k
  pub upload-precondition :
      (p : Put) (s : c.Store) (o : List ℕ)
      → p.if_none_match ≡ true
      → c.object s p.bucket p.key ≡ some o
      → ((f : Fault) × ((c.upload p s).0 ≡ err f))
        × (c.object (c.upload p s).1 p.bucket p.key ≡ some o)
  pub upload-stores :
      (p : Put) (s : c.Store)
      → (c.upload p s).0 ≡ ok tt
      → (c.object (c.upload p s).1 p.bucket p.key ≡ some (bytes p.body))
        × (length p.body ≤ c.chunks_read p s)
  pub delete-others :
      (b : ℕ) (j : Text) (s : c.Store) (b' : ℕ) (k : Text)
      → (b' ≢ b) ⊎ (k ≢ j)
      → c.object (c.delete_object b j s).1 b' k ≡ c.object s b' k
  pub delete-removes :
      (b : ℕ) (j : Text) (s : c.Store)
      → (c.delete_object b j s).0 ≡ ok tt
      → c.object (c.delete_object b j s).1 b j ≡ none

-- The attributes of `contextFromAuth` (utils/meters.ts).
pub record Context : Type 0 where
  pub customer_id : ℕ
  pub repository_id : ℕ

abbrev pub context_from_auth : AuthDto → Context
context_from_auth auth = record { customer_id = auth.user; repository_id = auth.repository }

-- The state of the service: the store, and what each counter was told, newest first.
pub record App (Store : Type 0) : Type 0 where
  pub store : Store
  pub requested : List (Context × ℕ)
  pub downloaded : List (Context × ℕ)
  pub uploaded : List (Context × ℕ)
  pub stored : List (Context × ℤ)
