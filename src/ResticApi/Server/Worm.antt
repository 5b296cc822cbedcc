-- ===== src/ResticApi/Server/Worm.antt =====
-- Write-once repositories: what no request of a write-once token can undo.
use yucca.Common.{
  ℕ, ◌≡◌, refl, sym, inl, inr, true, Option, none, some, List, [], ◌∷◌, Text, arith, ◌∙◌,
  Bool-cases, ==_iff, ◌==◌, text_eq, text_eq_sound, nat_eq-ne, text_eq-ne, All,
}
use yucca.ResticApi.Types.{S3, IsS3, App, AuthDto, BlobType, locks, Put, Chunk}
use yucca.ResticApi.App.{
  upload_metered, save_config, save_blob, delete_config, delete_blob, blob_key, config_key,
}
use yucca.ResticApi.App.Frame.{
  upload_metered-others, delete_metered-others, create_repository-object, check_object-object,
  read_object-object, list_blobs-object,
}
use yucca.ResticApi.Server.{
  Request, create_repo, delete_repo, check_cfg, get_cfg, delete_cfg, save_cfg, list, check, delete,
  get, save, handle, handle_all,
}
use yucca.ResticApi.Server.Isolation.{handle-others}

-- The key is that of a lock.
abbrev pub IsLockKey : Text → Type 0
IsLockKey k = (name : Text) × (k ≡ blob_key locks name)

module _ (c : S3) (l : IsS3 c) (sha : List ℕ → Text) (b : ℕ) (k : Text) (o : List ℕ) where
  open c use {Store}

  abbrev pub Has : App Store → Type 0
  Has s = c.object s.store b k ≡ some o

  upload_metered-existing :
      (auth : AuthDto) (p : Put) (expected : Option Text) (s : App Store)
      → p.if_none_match ≡ true
      → Has s
      → Has (upload_metered c sha auth p expected s).1
  unfolding upload_metered
  upload_metered-existing auth p expected s w h = elim (Bool-cases (b == p.bucket)) [
    | inr other ↦
        upload_metered-others c l b k sha auth p expected s (inl (nat_eq-ne b p.bucket other)) ∙ h
    | inl eb ↦ elim (Bool-cases (text_eq k p.key)) [
      | inr other ↦
          upload_metered-others c l b k sha auth p expected s (inr (text_eq-ne k p.key other)) ∙ h
      | inl ek ↦
          let (failed, kept) =
            l.upload-precondition p s.store o w
              (rw (← (==_iff b p.bucket).0 eb, ← text_eq_sound k p.key ek) h) in
          rw ((==_iff b p.bucket).0 eb, text_eq_sound k p.key ek) (ground arith)
    ]
  ]

  save_config-Has :
      (auth : AuthDto) (body : List Chunk) (s : App Store)
      → auth.write_once ≡ true
      → Has s
      → Has (save_config c sha auth body s).1
  unfolding save_config
  save_config-Has auth body s w h = ground (
    arith,
    upload_metered-existing auth
        (record {
          bucket = auth.repository;
          key = config_key;
          body = body;
          if_none_match = auth.write_once;
        })
        none s w h,
  )

  -- Saving a blob, with any token and whatever its outcome, leaves an object that is there as it is.
  pub save_blob-Has :
      (auth : AuthDto) (type : BlobType) (name : Text) (body : List Chunk) (s : App Store)
      → Has s
      → Has (save_blob c sha auth type name body s).1
  unfolding save_blob
  save_blob-Has auth type name body s h = ground (
    arith,
    upload_metered-existing auth
        (record {
          bucket = auth.repository;
          key = blob_key type name;
          body = body;
          if_none_match = true;
        })
        (some name) s refl h,
  )

  delete_blob-Has :
      (auth : AuthDto) (type : BlobType) (name : Text) (s : App Store)
      → auth.write_once ≡ true
      → ¬ IsLockKey k
      → Has s
      → Has (delete_blob c sha auth type name s).1
  unfolding delete_blob
  delete_blob-Has auth locks name s w free h = ground (
    arith,
    delete_metered-others c l b k sha auth (blob_key locks name) s (inr (λ e. free (name, e))),
  )
  delete_blob-Has auth _ name s w free h = ground arith

  -- A request of a write-once token leaves every stored object in place, locks excepted.
  pub handle-Has :
      (auth : AuthDto) (request : Request) (s : App Store)
      → auth.write_once ≡ true
      → ¬ IsLockKey k
      → Has s
      → Has (handle c sha auth request s).1
  unfolding handle
  handle-Has auth (create_repo is_create) s w free h =
      ground (arith, create_repository-object c l b k sha auth.repository is_create s)
  handle-Has auth delete_repo s w free h = h
  handle-Has auth check_cfg s w free h =
      ground (arith, check_object-object c l b k sha auth config_key s)
  handle-Has auth get_cfg s w free h =
      ground (arith, read_object-object c l b k sha auth config_key none s)
  handle-Has auth delete_cfg s w free h = unfold delete_config in ground arith
  handle-Has auth (save_cfg body) s w free h = ground (arith, save_config-Has auth body s w h)
  handle-Has auth (list type accept) s w free h =
      ground (arith, list_blobs-object c l b k sha auth type s)
  handle-Has auth (check type name) s w free h =
      ground (arith, check_object-object c l b k sha auth (blob_key type name) s)
  handle-Has auth (delete type name) s w free h =
      ground (arith, delete_blob-Has auth type name s w free h)
  handle-Has auth (get type name range) s w free h =
      ground (arith, read_object-object c l b k sha auth (blob_key type name) range s)
  handle-Has auth (save type name body) s w free h =
      ground (arith, save_blob-Has auth type name body s h)

  -- An object of a bucket that is no lock is still there, with the same bytes, after any sequence of
  -- requests in which each token for this bucket is write-once; the tokens for other buckets are arbitrary.
  pub handle_all-Has :
      (requests : List (AuthDto × Request)) (s : App Store)
      → All (λ r. r.0.repository ≡ b → r.0.write_once ≡ true) requests
      → ¬ IsLockKey k
      → Has s
      → Has (handle_all c sha requests s)
  unfolding handle_all
  handle_all-Has [] s w free h = h
  handle_all-Has ((auth, request) ∷ rest) s (w, ws) free h =
      elim (Bool-cases (b == auth.repository)) [
        | inl own ↦
            handle_all-Has rest (handle c sha auth request s).1 ws free
              (handle-Has auth request s (w (sym ((==_iff b auth.repository).0 own))) free h)
        | inr other ↦
            handle_all-Has rest (handle c sha auth request s).1 ws free
              (handle-others c l sha b k auth request s (nat_eq-ne b auth.repository other) ∙ h)
      ]
