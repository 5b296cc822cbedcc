-- ===== src/ResticApi/App.antt =====
-- packages/restic-api/src/services/app.service.ts. What the handlers report to the log is left out.
pub mod Frame
use Prim.Native.String.{String}
use text.Mathlib.Text.{◌==◌ as str_eq}
use yucca.Common.{
  ℕ, zero, suc, ◌==◌, Bool, true, false, Option, none, some, List, [], ◌∷◌, ◌++◌, Text, map, drop,
  length, take, any, not, ◌&&◌, ◌||◌, if◌then◌else◌,
}
use yucca.Common.Int.{ℤ, pos, negate}
use yucca.Common.Monad.{Result, ok, err, Action, pure, throw, catch, throw_if, modify, ◌>>=◌, ◌>>◌}
use yucca.ResticApi.Types.{
  S3, App, AuthDto, BlobType, data_blobs, index, keys, locks, snapshots, Error, bad_request,
  conflict, forbidden, not_found, fault, malformed, s3_error, checksum_mismatch, missing, service,
  Put, GetOutput, Listing, Entry, Chunk, bytes, Context, context_from_auth,
}
use yucca.ResticApi.Storage.{
  attach_meter_to_stream, callback_bytes, check_bucket, create_bucket, head_object, list_objects,
  get_object, delete_object, put_object,
}

-- `${type}/`, in code units
unfoldable pub suffix : BlobType → Text
suffix data_blobs = b'd' ∷ b'a' ∷ b't' ∷ b'a' ∷ b'/' ∷ []
suffix index = b'i' ∷ b'n' ∷ b'd' ∷ b'e' ∷ b'x' ∷ b'/' ∷ []
suffix keys = b'k' ∷ b'e' ∷ b'y' ∷ b's' ∷ b'/' ∷ []
suffix locks = b'l' ∷ b'o' ∷ b'c' ∷ b'k' ∷ b's' ∷ b'/' ∷ []
suffix snapshots = b's' ∷ b'n' ∷ b'a' ∷ b'p' ∷ b's' ∷ b'h' ∷ b'o' ∷ b't' ∷ b's' ∷ b'/' ∷ []

-- `${type}/${name}`
unfoldable pub blob_key : BlobType → Text → Text
unfolding suffix
blob_key type name = suffix type ++ name

unfoldable pub config_key : Text
config_key = b'c' ∷ b'o' ∷ b'n' ∷ b'f' ∷ b'i' ∷ b'g' ∷ []

abbrev pub is_locks : BlobType → Bool
is_locks locks = true
is_locks _ = false

-- `ContentLength || 0`
abbrev pub or_zero : Option ℕ → ℕ
or_zero none = 0
or_zero (some n) = n

pub record BlobInfo : Type 0 where
  pub name : Text
  pub size : ℕ

-- `!Key || !Size`
abbrev pub is_malformed : Entry → Bool
is_malformed e = elim e.key [ none ↦ true | some [] ↦ true | some (c ∷ cs) ↦ or_zero e.size == 0 ]

abbrev pub or_empty : Option Text → Text
or_empty none = []
or_empty (some k) = k

abbrev pub to_info : BlobType → Entry → BlobInfo
unfolding suffix
to_info type e = record {
  name = drop (length (suffix type)) (or_empty e.key);
  size = or_zero e.size;
}

-- the `try` block of `listBlobs`, after the reply
unfoldable pub read_listing : BlobType → Listing → Result Error (List BlobInfo)
unfolding suffix
read_listing type l =
    if elim l.key_count [ none ↦ false | some n ↦ n == 0 ] then ok [] else elim l.contents [
      | none ↦ err malformed
      | some contents ↦
          if any is_malformed contents then err malformed else ok (map (to_info type) contents)
    ]

-- the `catch` of `saveBlob`
unfoldable pub save_error : Error → Error
save_error checksum_mismatch = checksum_mismatch
save_error (fault missing) = s3_error
save_error (fault (service status name)) =
    if status == 412
    then forbidden "Blob already exists"
    else if str_eq name "XAmzContentChecksumMismatch"
    then bad_request "Content hash does not match blob name"
    else s3_error
save_error _ = s3_error

-- the `catch` of `saveConfig`
unfoldable pub save_config_error : Error → Error
save_config_error (fault (service status name)) =
    if status == 412 then forbidden "Config already exists" else s3_error
save_config_error _ = s3_error

module _ (c : S3) (sha256_hex : List ℕ → Text) where
  open c use {Store}

  unfoldable pub create_repository : ℕ → Bool → Action Error (App Store) (Unit {0})
  unfolding check_bucket create_bucket
  create_repository repository is_create = do
    throw_if (not is_create) (bad_request "isCreate must be true when creating repository")
    exists ← catch (check_bucket c repository) (λ _. throw s3_error)
    throw_if exists (conflict "Repository already exists")
    catch (create_bucket c repository) (λ _. throw s3_error)

  -- `checkConfig` and `checkBlob`
  unfoldable pub check_object : AuthDto → Text → Action Error (App Store) ℕ
  unfolding head_object
  check_object auth key =
      catch (do size ← head_object c auth.repository key; pure (or_zero size))
        (λ _. throw (not_found "Not Found"))

  -- `getConfig` and `getBlob`: `attachMeterToS3GetObject` counts the requested bytes
  unfoldable pub read_object : AuthDto → Text → Option Text → Action Error (App Store) GetOutput
  unfolding get_object
  read_object auth key range =
      catch
        (do
          output ← get_object c auth.repository key range
          modify λ s. record s {
            requested = (context_from_auth auth, or_zero output.content_length) ∷ s.requested;
          }
          pure output)
        (λ _. throw s3_error)

  -- the `try` of `saveConfig` and `saveBlob`: the upload pulls the body through the meter
  unfoldable pub upload_metered : AuthDto → Put → Option Text → Action Error (App Store) (Unit {0})
  unfolding put_object attach_meter_to_stream callback_bytes
  upload_metered auth p expected s =
      let passed = take (c.chunks_read p s.store) p.body in
      let context = context_from_auth auth in
      let metered = record s { uploaded = attach_meter_to_stream passed context s.uploaded } in
      (do
        put_object c sha256_hex p expected
        modify λ t. record t { stored = (context, pos (callback_bytes passed)) ∷ t.stored })
        metered

  unfoldable pub save_config : AuthDto → List Chunk → Action Error (App Store) (Unit {0})
  save_config auth body =
      let p : Put = record {
        bucket = auth.repository;
        key = config_key;
        body = body;
        if_none_match = auth.write_once;
      } in
      catch (upload_metered auth p none) (λ e. throw (save_config_error e))

  unfoldable pub save_blob :
      AuthDto → BlobType → Text → List Chunk → Action Error (App Store) (Unit {0})
  save_blob auth type name body =
      let p : Put = record {
        bucket = auth.repository;
        key = blob_key type name;
        body = body;
        if_none_match = true;
      } in
      catch (upload_metered auth p (some name)) (λ e. throw (save_error e))

  -- the `try` of `deleteConfig` and `deleteBlob`
  unfoldable pub delete_metered : AuthDto → Text → Action Error (App Store) (Unit {0})
  unfolding head_object delete_object
  delete_metered auth key =
      catch
        (do
          content_length ← head_object c auth.repository key
          throw_if (or_zero content_length == 0) malformed
          delete_object c auth.repository key
          modify λ s. record s {
            stored = (context_from_auth auth, negate (or_zero content_length)) ∷ s.stored;
          })
        (λ _. throw s3_error)

  unfoldable pub delete_config : AuthDto → Action Error (App Store) (Unit {0})
  delete_config auth = do
    throw_if auth.write_once (forbidden "Not permitted to write to WORM repository")
    delete_metered auth config_key

  unfoldable pub delete_blob : AuthDto → BlobType → Text → Action Error (App Store) (Unit {0})
  delete_blob auth type name = do
    throw_if (auth.write_once && not (is_locks type))
        (forbidden "Not permitted to write to WORM repository")
    delete_metered auth (blob_key type name)

  unfoldable pub list_blobs : AuthDto → BlobType → Action Error (App Store) (List BlobInfo)
  unfolding list_objects read_listing suffix
  list_blobs auth type =
      catch
        (do
          listing ← list_objects c auth.repository (suffix type)
          λ s. (read_listing type listing, s))
        (λ _. throw s3_error)
