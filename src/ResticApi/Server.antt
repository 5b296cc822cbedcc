-- ===== src/ResticApi/Server.antt =====
-- packages/restic-api/src/controllers/app.controller.ts, middleware/restic.interceptor.ts and
-- utils/s3.ts: the routes, behind the guard, and the response to a read.
pub mod Worm
pub mod Isolation
pub mod Content
pub mod Responses
mod Tests
use Prim.Native.String.{String}
use text.Mathlib.Text.{◌==◌ as str_eq}
use yucca.Common.{
  ℕ, ◌==◌, Bool, true, false, Option, none, some, List, [], ◌∷◌, Text, text_eq, map, not, ◌&&◌,
  take, if◌then◌else◌,
}
use yucca.Common.Monad.{Result, ok, err, Action, pure, throw, throw_if, ◌>>=◌, ◌>>◌}
use yucca.ResticApi.Types.{
  S3, App, AuthDto, BlobType, Error, not_implemented, GetOutput, Chunk, Context, context_from_auth,
}
use yucca.ResticApi.App.{
  BlobInfo, create_repository, check_object, read_object, save_config, save_blob, delete_config,
  delete_blob, list_blobs, blob_key, config_key,
}
use yucca.ResticApi.Storage.{attach_meter_to_stream}
use yucca.ResticApi.Access.{Tokens, can_activate}

-- the routes of the controller, with the parameters that the handlers read
pub data Request : Type 0 where
  create_repo : Bool → Request
  delete_repo check_cfg get_cfg delete_cfg : Request
  save_cfg : List Chunk → Request
  -- with the `Accept` header
  list : BlobType → String → Request
  check delete : BlobType → Text → Request
  get : BlobType → Text → Option Text → Request
  save : BlobType → Text → List Chunk → Request

pub data Reply : Type 0 where
  done : Reply
  size : ℕ → Reply
  object : GetOutput → Reply
  blobs : List BlobInfo → Reply

abbrev pub restic_v2 : String
restic_v2 = "application/vnd.x.restic.rest.v2"

module _ (c : S3) (sha256_hex : List ℕ → Text) where
  open c use {Store}

  unfoldable pub handle : AuthDto → Request → Action Error (App Store) Reply
  handle auth (create_repo is_create) =
      create_repository c sha256_hex auth.repository is_create >> pure done
  handle auth delete_repo = pure done
  handle auth check_cfg = do n ← check_object c sha256_hex auth config_key; pure (size n)
  handle auth get_cfg = do o ← read_object c sha256_hex auth config_key none; pure (object o)
  handle auth delete_cfg = delete_config c sha256_hex auth >> pure done
  handle auth (save_cfg body) = save_config c sha256_hex auth body >> pure done
  handle auth (list type accept) = do
    throw_if (not (str_eq accept restic_v2)) (not_implemented "Not Implemented")
    infos ← list_blobs c sha256_hex auth type
    pure (blobs infos)
  handle auth (check type name) = do
    n ← check_object c sha256_hex auth (blob_key type name)
    pure (size n)
  handle auth (delete type name) = delete_blob c sha256_hex auth type name >> pure done
  handle auth (get type name range) = do
    o ← read_object c sha256_hex auth (blob_key type name) range
    pure (object o)
  handle auth (save type name body) = save_blob c sha256_hex auth type name body >> pure done

  -- a request with its `Authorization` header and the repository in its path
  unfoldable pub serve : Tokens → Option Text → Option ℕ → Request → Action Error (App Store) Reply
  serve tokens header path request s = elim (can_activate tokens header path) [
    | err e ↦ (err e, s)
    | ok auth ↦ handle auth request s
  ]

  -- requests one after another, each with its token's claims
  unfoldable pub handle_all : List (AuthDto × Request) → App Store → App Store
  handle_all [] s = s
  handle_all ((auth, request) ∷ rest) s = handle_all rest (handle auth request s).1

-- `respondWithObject`: the status, the headers and whether a body follows
pub data Response : Type 0 where
  not_modified internal_server_error : Response
  content :
      (status : ℕ) (etag content_range : Option String) (content_type : String) (length : Option ℕ)
      → List Chunk
      → Response

-- `===` on two strings that may be undefined
abbrev pub same : Option String → Option String → Bool
same none none = true
same none (some b) = false
same (some a) none = false
same (some a) (some b) = str_eq a b

-- `range && range !== 'bytes=0-'`
abbrev pub is_partial : Option String → Bool
is_partial none = false
is_partial (some range) = not (str_eq range "") && not (str_eq range "bytes=0-")

-- an empty string is falsy
abbrev pub truthy : Option String → Option String
truthy none = none
truthy (some a) = if str_eq a "" then none else some a

abbrev pub nonzero : Option ℕ → Option ℕ
nonzero none = none
nonzero (some n) = if n == 0 then none else some n

abbrev pub type_or_binary : Option String → String
type_or_binary none = "application/octet-stream"
type_or_binary (some t) = t

unfoldable pub respond_with_object : GetOutput → (if_none_match range : Option String) → Response
respond_with_object o if_none_match range =
    if same if_none_match o.etag then not_modified else elim o.body [
      | none ↦ internal_server_error
      | some stream ↦
          content (if is_partial range then 206 else 200) (truthy o.etag) (truthy o.content_range)
            (type_or_binary o.content_type) (nonzero o.content_length) stream
    ]

-- `stream()` and `pipe`: the meter counts the chunks of the body that the client takes
unfoldable pub download :
    {Store : Type 0} → AuthDto → (taken : ℕ) → Response → App Store → App Store
unfolding attach_meter_to_stream
download auth taken (content status etag content_range content_type length stream) s = record s {
  downloaded = attach_meter_to_stream (take taken stream) (context_from_auth auth) s.downloaded;
}
download auth taken not_modified s = s
download auth taken internal_server_error s = s
