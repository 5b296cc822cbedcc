-- ===== src/ResticApi/Server/Content.antt =====
-- What saving, deleting and listing mean for the stored objects and for the stored-bytes counter.
use yucca.Common.{
  ℕ, ◌+◌, ◌≡◌, refl, ◌≢◌, inl, inr, Bool, true, false, Option, none, some, List, [], ◌∷◌, ◌++◌,
  Text, arith, Option-cases, Bool-cases, length, drop-append, text_eq_sound, map, take_all, take,
  All, any,
}
use yucca.Common.Int.{pos, negate}
use yucca.Common.Monad.{ok, err, Result-cases}
use yucca.ResticApi.Types.{
  S3, IsS3, App, AuthDto, BlobType, data_blobs, Put, Chunk, bytes, Entry, Error, malformed,
  s3_error, context_from_auth,
}
use yucca.ResticApi.Storage.{put_object, callback_bytes, mismatches}
use yucca.ResticApi.App.{
  upload_metered, save_blob, delete_metered, delete_blob, blob_key, suffix, read_listing, BlobInfo,
  is_malformed, to_info, or_zero,
}

length-append : (xs ys : List ℕ) → length (xs ++ ys) ≡ length xs + length ys
length-append [] ys = omega arith
length-append (x ∷ xs) ys = omega (arith, length-append xs ys)

callback_bytes-length : (body : List Chunk) → callback_bytes body ≡ length (bytes body)
unfolding callback_bytes
callback_bytes-length [] = refl
callback_bytes-length (chunk ∷ body) =
    omega (arith, callback_bytes-length body, length-append chunk (bytes body))

module _ (c : S3) (l : IsS3 c) (sha : List ℕ → Text) where
  open c use {Store}

  upload_metered-ok :
      (auth : AuthDto) (p : Put) (expected : Option Text) (s : App Store)
      → (upload_metered c sha auth p expected s).0 ≡ ok tt
      → ((c.upload p s.store).0 ≡ ok tt)
        × (mismatches c sha expected p.body ≡ false)
        × ((upload_metered c sha auth p expected s).1.store ≡ (c.upload p s.store).1)
        × ((upload_metered c sha auth p expected s).1.stored
            ≡ (context_from_auth auth, pos (callback_bytes (take (c.chunks_read p s.store) p.body)))
              ∷ s.stored)
  unfolding upload_metered put_object
  upload_metered-ok auth p expected s e = elim (Result-cases (c.upload p s.store).0) [
    | inr (f, failed) ↦ ground arith
    | inl (u, done) ↦ elim (Bool-cases (mismatches c sha expected p.body)) [
      | inl bad ↦ elim (Result-cases (c.delete_object p.bucket p.key (c.upload p s.store).1).0) [
        | inl x ↦ ground arith
        | inr x ↦ ground arith
      ]
      | inr good ↦ (ground arith, good, ground arith, ground arith)
    ]
  ]

  upload_metered-err :
      (auth : AuthDto) (p : Put) (expected : Option Text) (s : App Store) (x : Error)
      → (upload_metered c sha auth p expected s).0 ≡ err x
      → (upload_metered c sha auth p expected s).1.stored ≡ s.stored
  unfolding upload_metered put_object
  upload_metered-err auth p expected s x e = ground arith

  -- A successful save stores exactly the body, its hash is the blob's name, the blob was not there
  -- before, and the stored-bytes counter gains the length of the body.
  pub save_blob-ok :
      (auth : AuthDto) (type : BlobType) (ch : ℕ) (name : Text) (body : List Chunk) (s : App Store)
      → (save_blob c sha auth type (ch ∷ name) body s).0 ≡ ok tt
      → let s' = (save_blob c sha auth type (ch ∷ name) body s).1 in
        (c.object s'.store auth.repository (blob_key type (ch ∷ name)) ≡ some (bytes body))
        × (sha (bytes body) ≡ ch ∷ name)
        × (c.object s.store auth.repository (blob_key type (ch ∷ name)) ≡ none)
        × (s'.stored ≡ (context_from_auth auth, pos (length (bytes body))) ∷ s.stored)
  unfolding save_blob
  save_blob-ok auth type ch name body s e =
      let p : Put = record {
        bucket = auth.repository;
        key = blob_key type (ch ∷ name);
        body = body;
        if_none_match = true;
      } in
      let saved : (upload_metered c sha auth p (some (ch ∷ name)) s).0 ≡ ok tt = ground arith in
      let (uploaded, matched, store, stored) =
        upload_metered-ok auth p (some (ch ∷ name)) s saved in
      let (content, all_read) = l.upload-stores p s.store uploaded in
      let fresh : c.object s.store auth.repository (blob_key type (ch ∷ name)) ≡ none =
        elim (Option-cases (c.object s.store auth.repository (blob_key type (ch ∷ name)))) [
          | inl absent ↦ absent
          | inr (o, present) ↦
              let ((f, failed), kept) = l.upload-precondition p s.store o refl present in
              cc (failed, uploaded)
        ] in
      let passed : take (c.chunks_read p s.store) p.body ≡ body = take_all _ body all_read in
      (
        ground arith,
        text_eq_sound _ _ (ground arith),
        fresh,
        ground (arith, passed, callback_bytes-length body),
      )

  -- A failed save leaves the counter of stored bytes alone.
  pub save_blob-err :
      (auth : AuthDto) (type : BlobType) (name : Text) (body : List Chunk) (s : App Store)
      (x : Error)
      → (save_blob c sha auth type name body s).0 ≡ err x
      → (save_blob c sha auth type name body s).1.stored ≡ s.stored
  unfolding save_blob
  save_blob-err auth type name body s x e =
      let p : Put = record {
        bucket = auth.repository;
        key = blob_key type name;
        body = body;
        if_none_match = true;
      } in
      elim (Result-cases (upload_metered c sha auth p (some name) s).0) [
        | inl fine ↦ ground arith
        | inr (y, failed) ↦ ground (arith, upload_metered-err auth p (some name) s y failed)
      ]

  -- A body whose hash is not the name is refused, even if the store takes the upload.
  pub save_blob-mismatch :
      (auth : AuthDto) (type : BlobType) (ch : ℕ) (name : Text) (body : List Chunk) (s : App Store)
      → sha (bytes body) ≢ ch ∷ name
      → (save_blob c sha auth type (ch ∷ name) body s).0 ≢ ok tt
  save_blob-mismatch auth type ch name body s ne e = ne (save_blob-ok auth type ch name body s e).1

  delete_metered-ok :
      (auth : AuthDto) (key : Text) (s : App Store)
      → (delete_metered c sha auth key s).0 ≡ ok tt
      → let s' = (delete_metered c sha auth key s).1 in
        (n : ℕ) × ((c.head_object auth.repository key s.store).0 ≡ ok (some n))
        × (n ≢ 0)
        × (c.object s'.store auth.repository key ≡ none)
        × (s'.stored ≡ (context_from_auth auth, negate n) ∷ s.stored)
  unfolding delete_metered
  delete_metered-ok auth key s e =
      elim (Result-cases (c.head_object auth.repository key s.store).0) [
        | inr (f, failed) ↦ absurd (ground arith)
        | inl (length, found) ↦ elim (Option-cases length) [
          | inl missing ↦ absurd (ground arith)
          | inr (n, sized) ↦ (
            n,
            ground arith,
            ground arith,
            ground (
              arith,
              l.delete-removes auth.repository key (c.head_object auth.repository key s.store).1,
            ),
            ground arith,
          )
        ]
      ]

  -- A successful deletion removes the object, which was not empty, and takes its length off the
  -- counter of stored bytes.
  pub delete_blob-ok :
      (auth : AuthDto) (type : BlobType) (name : Text) (s : App Store)
      → (delete_blob c sha auth type name s).0 ≡ ok tt
      → let s' = (delete_blob c sha auth type name s).1 in
        (n : ℕ) × ((c.head_object auth.repository (blob_key type name) s.store).0 ≡ ok (some n))
        × (n ≢ 0)
        × (c.object s'.store auth.repository (blob_key type name) ≡ none)
        × (s'.stored ≡ (context_from_auth auth, negate n) ∷ s.stored)
  unfolding delete_blob
  delete_blob-ok auth type name s e =
      let deleted : (delete_metered c sha auth (blob_key type name) s).0 ≡ ok tt = ground arith in
      let (n, found, nonempty, gone, stored) =
        delete_metered-ok auth (blob_key type name) s deleted in
      (n, found, nonempty, ground arith, ground arith)

  -- An object that the store gives no length, or the length 0, cannot be deleted: the answer is an error, this
  -- and each other object of the store is as before, and the counter of stored bytes is told nothing.
  pub delete_metered-empty :
      (auth : AuthDto) (key : Text) (s : App Store) (n : Option ℕ)
      → (c.head_object auth.repository key s.store).0 ≡ ok n
      → or_zero n ≡ 0
      → let s' = (delete_metered c sha auth key s).1 in
        ((delete_metered c sha auth key s).0 ≡ err s3_error)
        × ((b : ℕ) (k : Text) → c.object s'.store b k ≡ c.object s.store b k)
        × (s'.stored ≡ s.stored)
  unfolding delete_metered
  delete_metered-empty auth key s n h z = (
    ground arith,
    (λ b k. ground (arith, l.head_object-object auth.repository key s.store b k)),
    ground arith,
  )

-- What the store lists for a blob.
abbrev pub entry : BlobType → BlobInfo → Entry
entry type i = record { key = some (blob_key type i.name); size = some i.size }

is_malformed-entry :
    (type : BlobType) (i : BlobInfo) → i.size ≢ 0 → is_malformed (entry type i) ≡ false
unfolding blob_key suffix
is_malformed-entry data_blobs i h = ground arith
is_malformed-entry _ i h = ground arith

to_info-entry : (type : BlobType) (i : BlobInfo) → to_info type (entry type i) ≡ i
unfolding blob_key
to_info-entry type i = rw (drop-append (suffix type) i.name)

is_malformed-empty :
    (type : BlobType) (name : Text)
    → is_malformed (entry type (record { name = name; size = 0 })) ≡ true
unfolding blob_key suffix
is_malformed-empty data_blobs name = refl
is_malformed-empty _ name = refl

any-append :
    (p : Entry → Bool) (before after : List Entry) (e : Entry)
    → p e ≡ true
    → any p (before ++ e ∷ after) ≡ true
any-append p [] after e h = ground arith
any-append p (x ∷ before) after e h = ground (arith, any-append p before after e h)

well_formed :
    (type : BlobType) (infos : List BlobInfo)
    → All (λ i. i.size ≢ 0) infos
    → (any is_malformed (map (entry type) infos) ≡ false)
      × (map (to_info type) (map (entry type) infos) ≡ infos)
well_formed type [] h = (refl, refl)
well_formed type (i ∷ infos) (n, h) =
    let (fine, same) = well_formed type infos h in
    (rw (is_malformed-entry type i n) fine, cc (to_info-entry type i))

-- A complete listing of nonempty blobs comes back with every name, freed from the type's directory,
-- and every size, in order.
pub read_listing-entries :
    (type : BlobType) (infos : List BlobInfo) (count : Option ℕ)
    → count ≢ some 0
    → All (λ i. i.size ≢ 0) infos
    → read_listing type (record { contents = some (map (entry type) infos); key_count = count })
      ≡ ok infos
unfolding read_listing
read_listing-entries type infos count nc h = ground (arith, well_formed type infos h)

-- One blob of no bytes makes the listing of its whole type fail.
pub read_listing-empty_blob :
    (type : BlobType) (before after : List Entry) (name : Text) (count : Option ℕ)
    → count ≢ some 0
    → read_listing type (record {
      contents = some (before ++ entry type (record { name = name; size = 0 }) ∷ after);
      key_count = count;
    })
      ≡ err malformed
unfolding read_listing
read_listing-empty_blob type before after name count nc = ground (
  arith,
  any-append is_malformed before after (entry type (record { name = name; size = 0 }))
      (is_malformed-empty type name),
)
