-- ===== src/ResticApi/Server/Tests.antt =====
-- A store in memory, on which the gateway runs, and the theorems at concrete requests.
use native.Mathlib.Nat.{le_refl}
use yucca.Common.{
  ℕ, ◌==◌, ◌≡◌, refl, ◌≢◌, ◌⊎◌, Bool, true, false, ◌&&◌, Option, none, some, List, [], ◌∷◌, Text,
  text_eq, text_eq_sound, text_eq_self, arith, length, map, if◌then◌else◌,
}
use yucca.Common.Int.{pos, negate}
use yucca.Common.Monad.{ok, err}
use yucca.ResticApi.Types.{
  S3, IsS3, App as AppState, AuthDto, data_blobs, Chunk, bytes, missing, service, Error,
  context_from_auth,
}
use yucca.ResticApi.Storage
use yucca.ResticApi.App
use yucca.ResticApi.Access
use yucca.ResticApi.Access.{Tokens, can_activate}
use yucca.ResticApi.Server.{
  Request, save_cfg, save, delete, handle, handle_all, serve, download, content,
}
use yucca.ResticApi.Server.Worm.{handle_all-Has, IsLockKey}
use yucca.ResticApi.Server.Isolation.{serve-others, can_activate-IsGranted, IsGranted}
use yucca.ResticApi.Server.Content.{
  save_blob-ok, save_blob-err, delete_blob-ok, read_listing-entries, entry, delete_metered-empty,
}

abbrev Objects : Type 0
Objects = ℕ → Text → Option (List ℕ)

abbrev put_at : ℕ → Text → Option (List ℕ) → Objects → Objects
put_at b k o s b' k' = if (b' == b) && text_eq k' k then o else s b' k'

abbrev precondition_fails : Bool → Option (List ℕ) → Bool
precondition_fails true (some _) = true
precondition_fails _ _ = false

abbrev memory : S3
memory = record {
  Store = Objects;
  object = λ s b k. s b k;
  head_bucket = λ b s. (err missing, s);
  create_bucket = λ b s. (ok tt, s);
  upload = λ p s.
      if precondition_fails p.if_none_match (s p.bucket p.key)
      then (err (service 412 "PreconditionFailed"), s)
      else (ok tt, put_at p.bucket p.key (some (bytes p.body)) s);
  chunks_read = λ p s. length p.body;
  head_object = λ b k s. (elim (s b k) [ none ↦ err missing | some o ↦ ok (some (length o)) ], s);
  list_objects = λ b k s. (ok (record { contents = none; key_count = some 0 }), s);
  get_object = λ b k range s. elim (s b k) [
    | none ↦ (err missing, s)
    | some o ↦ (
      ok (record {
        content_length = some (length o);
        body = some (o ∷ []);
        etag = none;
        content_type = none;
        content_range = none;
      }),
      s,
    )
  ];
  delete_object = λ b k s. (ok tt, put_at b k none s);
}

put_at-others :
    (b : ℕ) (k : Text) (o : Option (List ℕ)) (s : Objects) (b' : ℕ) (k' : Text)
    → (b' ≢ b) ⊎ (k' ≢ k)
    → put_at b k o s b' k' ≡ s b' k'
put_at-others b k o s b' k' h = ground (arith, text_eq_sound k' k)

put_at_self : (b : ℕ) (k : Text) (o : Option (List ℕ)) (s : Objects) → put_at b k o s b k ≡ o
put_at_self b k o s = ground (arith, text_eq_self k)

memory-IsS3 : IsS3 memory
memory-IsS3 = record {
  head_bucket-object = λ b s b' k. refl;
  create_bucket-object = λ b s b' k. refl;
  head_object-object = λ b j s b' k. refl;
  list_objects-object = λ b j s b' k. refl;
  get_object-object = λ b j range s b' k. ground arith;
  upload-others =
      λ p s b k h. ground (arith, put_at-others p.bucket p.key (some (bytes p.body)) s b k h);
  upload-precondition =
      λ p s o w h. ((service 412 "PreconditionFailed", ground arith), ground arith);
  upload-stores =
      λ p s e. (ground (arith, put_at_self p.bucket p.key (some (bytes p.body)) s), le_refl _);
  delete-others = λ b j s b' k h. put_at-others b j none s b' k h;
  delete-removes = λ b j s e. put_at_self b j none s;
}

abbrev auth : AuthDto
auth = record { user = 1; repository = 7; write_once = true }

abbrev editor : AuthDto
editor = record { user = 1; repository = 7; write_once = false }

-- a stand-in for the hash
abbrev sum_name : List ℕ → Text
sum_name [] = b'a' ∷ []
sum_name (x ∷ xs) = b'b' ∷ []

abbrev blob : Text
blob = b'b' ∷ []

abbrev other : Text
other = b'c' ∷ []

abbrev body : List Chunk
body = (1 ∷ 2 ∷ []) ∷ (3 ∷ []) ∷ []

abbrev empty_store : Objects
empty_store b k = none

abbrev start : AppState Objects
start = record { store = empty_store; requested = []; downloaded = []; uploaded = []; stored = [] }

abbrev saved : AppState Objects
saved = record start {
  store =
      put_at 7 (b'd' ∷ b'a' ∷ b't' ∷ b'a' ∷ b'/' ∷ b'b' ∷ []) (some (1 ∷ 2 ∷ 3 ∷ [])) empty_store;
}

save_runs :
    (handle memory sum_name auth (save data_blobs blob body) start).1.stored
    ≡ (context_from_auth auth, pos 3) ∷ []
unfolding handle App.save_blob App.upload_metered App.blob_key Storage.put_object text_eq
save_runs = refl

-- On a repository that is not write-once a second configuration replaces the first, and the counter
-- of stored bytes keeps both.
config_twice :
    (handle_all memory sum_name
      ((editor, save_cfg body) ∷ (editor, save_cfg body) ∷ [])
      start).stored
    ≡ (context_from_auth editor, pos 3) ∷ (context_from_auth editor, pos 3) ∷ []
unfolding handle_all handle App.save_config App.upload_metered App.config_key Storage.put_object
    text_eq
config_twice = refl

not_a_lock : ¬ IsLockKey (b'd' ∷ b'a' ∷ b't' ∷ b'a' ∷ b'/' ∷ b'b' ∷ [])
unfolding App.blob_key
not_a_lock (name, e) = ground arith

-- a token for another bucket, which is not write-once
abbrev stranger : AuthDto
stranger = record editor { repository = 8 }

abbrev mixed : List (AuthDto × Request)
mixed =
    (auth, delete data_blobs blob)
    ∷ (stranger, delete data_blobs blob)
    ∷ (auth, save data_blobs blob body)
    ∷ []

handle_all-Has_example :
    memory.object
      (handle_all memory sum_name mixed saved).store
      7
      (b'd' ∷ b'a' ∷ b't' ∷ b'a' ∷ b'/' ∷ b'b' ∷ [])
    ≡ some (1 ∷ 2 ∷ 3 ∷ [])
unfolding text_eq
handle_all-Has_example =
    handle_all-Has memory memory-IsS3 sum_name 7 (b'd' ∷ b'a' ∷ b't' ∷ b'a' ∷ b'/' ∷ b'b' ∷ [])
      (1 ∷ 2 ∷ 3 ∷ []) mixed saved ((λ e. refl), ((λ e. ground arith), ((λ e. refl), tt)))
      not_a_lock refl

abbrev tokens : Tokens
tokens = record {
  Claims = AuthDto;
  decode_base64 = λ t. t;
  verify = λ t. some editor;
  validate = λ a. ok a;
}

-- `Basic u:t`
abbrev header : Text
header = b'B' ∷ b'a' ∷ b's' ∷ b'i' ∷ b'c' ∷ b' ' ∷ b'u' ∷ b':' ∷ b't' ∷ []

can_activate-IsGranted_example :
    (h : Text) × (some header ≡ some h) × IsGranted tokens h (some 7) editor
unfolding can_activate Access.authenticate Access.check_token Access.token_of Access.starts_with
    Access.second Access.split Access.credentials
can_activate-IsGranted_example = can_activate-IsGranted tokens (some header) (some 7) editor refl

serve-others_example :
    memory.object
      (serve memory sum_name tokens
        (some header)
        (some 7)
        (save data_blobs blob body)
        saved).1.store
      8
      blob
    ≡ memory.object saved.store 8 blob
serve-others_example =
    serve-others memory memory-IsS3 sum_name 8 blob tokens (some header) 7
      (save data_blobs blob body) saved (omega arith)

save_blob-ok_example :
    let s' = (App.save_blob memory sum_name auth data_blobs blob body start).1 in
    (memory.object s'.store 7 (App.blob_key data_blobs blob) ≡ some (1 ∷ 2 ∷ 3 ∷ []))
    × (sum_name (1 ∷ 2 ∷ 3 ∷ []) ≡ blob)
    × (memory.object start.store 7 (App.blob_key data_blobs blob) ≡ none)
    × (s'.stored ≡ (context_from_auth auth, pos 3) ∷ [])
unfolding App.save_blob App.upload_metered App.blob_key Storage.put_object text_eq
save_blob-ok_example =
    save_blob-ok memory memory-IsS3 sum_name auth data_blobs b'b' [] body start refl

save_blob-err_example :
    (App.save_blob memory sum_name auth data_blobs other body start).1.stored ≡ []
unfolding App.save_blob App.upload_metered App.blob_key App.save_error Storage.put_object
    Storage.delete_object text_eq
save_blob-err_example =
    save_blob-err memory memory-IsS3 sum_name auth data_blobs other body start
      Error.checksum_mismatch refl

delete_blob-ok_example :
    let s' = (App.delete_blob memory sum_name editor data_blobs blob saved).1 in
    (n : ℕ) × ((memory.head_object 7 (App.blob_key data_blobs blob) saved.store).0 ≡ ok (some n))
    × (n ≢ 0)
    × (memory.object s'.store 7 (App.blob_key data_blobs blob) ≡ none)
    × (s'.stored ≡ (context_from_auth editor, negate n) ∷ [])
unfolding App.delete_blob App.delete_metered App.blob_key text_eq
delete_blob-ok_example =
    delete_blob-ok memory memory-IsS3 sum_name editor data_blobs blob saved refl

read_listing-entries_example :
    App.read_listing data_blobs (record {
      contents = some (map (entry data_blobs) (record { name = blob; size = 3 } ∷ []));
      key_count = some 1;
    })
    ≡ ok (record { name = blob; size = 3 } ∷ [])
read_listing-entries_example =
    read_listing-entries data_blobs (record { name = blob; size = 3 } ∷ []) (some 1)
      (λ e. ground arith) (λ e. ground arith, tt)

-- an empty object under the name of the blob
abbrev hollow : AppState Objects
hollow = record start { store = put_at 7 blob (some []) empty_store }

delete_metered-empty_example :
    ((App.delete_metered memory sum_name editor blob hollow).0 ≡ err Error.s3_error)
    × ((b : ℕ) (k : Text)
        → memory.object (App.delete_metered memory sum_name editor blob hollow).1.store b k
          ≡ memory.object hollow.store b k)
    × ((App.delete_metered memory sum_name editor blob hollow).1.stored ≡ hollow.stored)
unfolding text_eq
delete_metered-empty_example =
    delete_metered-empty memory memory-IsS3 sum_name editor blob hollow (some 0) refl refl

-- a client that takes two of three chunks
downloaded_two :
    (download editor 2
      (content 200 none none "t" none ((1 ∷ []) ∷ (2 ∷ 3 ∷ []) ∷ (4 ∷ []) ∷ []))
      start).downloaded
    ≡ (context_from_auth editor, 2) ∷ (context_from_auth editor, 1) ∷ []
unfolding download
downloaded_two = refl
