-- ===== src/ResticApi/Storage.antt =====
-- packages/restic-api/src/repositories/storage.repository.ts and utils/meters.ts.
use yucca.Common.{
  ℕ, Bool, true, false, Option, none, some, List, [], ◌∷◌, Text, text_eq, length, not,
  if◌then◌else◌, ◌+◌,
}
use yucca.Common.Monad.{ok, err, Action, pure, throw, ◌>>◌}
use yucca.ResticApi.Types.{
  S3, App, Error, fault, checksum_mismatch, Fault, missing, Put, GetOutput, Listing, Chunk, bytes,
  Context,
}

-- One `meterBytes.add(chunk.length, context)` for each chunk that passes through.
unfoldable pub attach_meter_to_stream :
    List Chunk → Context → List (Context × ℕ) → List (Context × ℕ)
attach_meter_to_stream [] context meter = meter
attach_meter_to_stream (chunk ∷ stream) context meter =
    attach_meter_to_stream stream context ((context, length chunk) ∷ meter)

-- The sum that `callbackBytes` builds up.
unfoldable pub callback_bytes : List Chunk → ℕ
callback_bytes [] = 0
callback_bytes (chunk ∷ stream) = length chunk + callback_bytes stream

module _ (c : S3) where
  open c use {Store}

  -- `this.client.send(…)`
  abbrev pub send : {A : Type 0} → Action Fault Store A → Action Error (App Store) A
  send m s =
      let (r, store) = m s.store in
      (elim r [ ok a ↦ ok a | err f ↦ err (fault f) ], record s { store = store })

  unfoldable pub check_bucket : ℕ → Action Error (App Store) Bool
  check_bucket bucket s =
      let (r, store) = c.head_bucket bucket s.store in
      (
        elim r [ ok _ ↦ ok true | err missing ↦ ok false | err f ↦ err (fault f) ],
        record s { store = store },
      )

  unfoldable pub create_bucket : ℕ → Action Error (App Store) (Unit {0})
  create_bucket bucket = send (c.create_bucket bucket)

  unfoldable pub head_object : ℕ → Text → Action Error (App Store) (Option ℕ)
  head_object bucket key = send (c.head_object bucket key)

  unfoldable pub list_objects : ℕ → Text → Action Error (App Store) Listing
  list_objects bucket prefix = send (c.list_objects bucket prefix)

  unfoldable pub get_object : ℕ → Text → Option Text → Action Error (App Store) GetOutput
  get_object bucket key range = send (c.get_object bucket key range)

  unfoldable pub delete_object : ℕ → Text → Action Error (App Store) (Unit {0})
  delete_object bucket key = send (c.delete_object bucket key)

  -- the test after the upload, on the hash of all that passed through
  abbrev pub mismatches : (List ℕ → Text) → Option Text → List Chunk → Bool
  mismatches sha256_hex none body = false
  mismatches sha256_hex (some []) body = false  -- the empty string is falsy
  mismatches sha256_hex (some expected) body = not (text_eq (sha256_hex (bytes body)) expected)

  unfoldable pub put_object :
      (List ℕ → Text) → Put → Option Text → Action Error (App Store) (Unit {0})
  unfolding delete_object
  put_object sha256_hex p expected = do
    send (c.upload p)
    if mismatches sha256_hex expected p.body
        then (delete_object p.bucket p.key >> throw checksum_mismatch)
        else pure tt
