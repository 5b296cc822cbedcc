-- ===== src/ResticApi/App/Frame.antt =====
-- What each method of the gateway leaves alone in the store.
use yucca.Common.{ℕ, ◌≡◌, ◌≢◌, ◌⊎◌, Bool, Option, List, Text, arith}
use yucca.ResticApi.Types.{S3, IsS3, App, AuthDto, BlobType, Put}
use yucca.ResticApi.Storage.{put_object}
use yucca.ResticApi.App.{
  create_repository, check_object, read_object, upload_metered, delete_metered, list_blobs, suffix,
}

module _ (c : S3) (l : IsS3 c) (b : ℕ) (k : Text) where
  open c use {Store}

  abbrev pub object_at : App Store → Option (List ℕ)
  object_at s = c.object s.store b k

  pub upload_metered-others :
      (sha : List ℕ → Text) (auth : AuthDto) (p : Put) (expected : Option Text) (s : App Store)
      → (b ≢ p.bucket) ⊎ (k ≢ p.key)
      → object_at (upload_metered c sha auth p expected s).1 ≡ object_at s
  unfolding upload_metered put_object
  upload_metered-others sha auth p expected s h = ground (
    arith,
    l.upload-others p s.store b k h,
    l.delete-others p.bucket p.key (c.upload p s.store).1 b k h,
  )

  pub delete_metered-others :
      (sha : List ℕ → Text) (auth : AuthDto) (j : Text) (s : App Store)
      → (b ≢ auth.repository) ⊎ (k ≢ j)
      → object_at (delete_metered c sha auth j s).1 ≡ object_at s
  unfolding delete_metered
  delete_metered-others sha auth j s h = ground (
    arith,
    l.head_object-object auth.repository j s.store b k,
    l.delete-others auth.repository j (c.head_object auth.repository j s.store).1 b k h,
  )

  -- Creating a bucket and reading change no object.
  pub create_repository-object :
      (sha : List ℕ → Text) (repository : ℕ) (is_create : Bool) (s : App Store)
      → object_at (create_repository c sha repository is_create s).1 ≡ object_at s
  unfolding create_repository
  create_repository-object sha repository is_create s = ground (
    arith,
    l.head_bucket-object repository s.store b k,
    l.create_bucket-object repository (c.head_bucket repository s.store).1 b k,
  )

  pub check_object-object :
      (sha : List ℕ → Text) (auth : AuthDto) (j : Text) (s : App Store)
      → object_at (check_object c sha auth j s).1 ≡ object_at s
  unfolding check_object
  check_object-object sha auth j s =
      ground (arith, l.head_object-object auth.repository j s.store b k)

  pub read_object-object :
      (sha : List ℕ → Text) (auth : AuthDto) (j : Text) (range : Option Text) (s : App Store)
      → object_at (read_object c sha auth j range s).1 ≡ object_at s
  unfolding read_object
  read_object-object sha auth j range s =
      ground (arith, l.get_object-object auth.repository j range s.store b k)

  pub list_blobs-object :
      (sha : List ℕ → Text) (auth : AuthDto) (type : BlobType) (s : App Store)
      → object_at (list_blobs c sha auth type s).1 ≡ object_at s
  unfolding list_blobs
  list_blobs-object sha auth type s =
      ground (arith, l.list_objects-object auth.repository (suffix type) s.store b k)
