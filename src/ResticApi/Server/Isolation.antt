-- ===== src/ResticApi/Server/Isolation.antt =====
-- Who may reach a repository, and what a request can touch.
use yucca.Common.{
  ℕ, ◌≡◌, refl, ◌≢◌, inl, inr, true, Option, none, some, List, [], ◌∷◌, Text, arith, Option-cases,
}
use yucca.Common.Monad.{ok, Result-cases}
use yucca.ResticApi.Types.{S3, IsS3, App, AuthDto}
use yucca.ResticApi.App.{save_config, save_blob, delete_config, delete_blob, blob_key, config_key}
use yucca.ResticApi.App.Frame.{
  object_at, upload_metered-others, delete_metered-others, create_repository-object,
  check_object-object, read_object-object, list_blobs-object,
}
use yucca.ResticApi.Access.{
  Tokens, token_of, check_token, authenticate, can_activate, starts_with, basic_prefix,
}
use yucca.ResticApi.Server.{
  Request, create_repo, delete_repo, check_cfg, get_cfg, delete_cfg, save_cfg, list, check, delete,
  get, save, handle, serve,
}

module _ (c : S3) (l : IsS3 c) (sha : List ℕ → Text) (b : ℕ) (k : Text) where
  open c use {Store}

  pub handle-others :
      (auth : AuthDto) (request : Request) (s : App Store)
      → b ≢ auth.repository
      → object_at c l b k (handle c sha auth request s).1 ≡ object_at c l b k s
  unfolding handle
  handle-others auth (create_repo is_create) s h =
      ground (arith, create_repository-object c l b k sha auth.repository is_create s)
  handle-others auth delete_repo s h = refl
  handle-others auth check_cfg s h =
      ground (arith, check_object-object c l b k sha auth config_key s)
  handle-others auth get_cfg s h =
      ground (arith, read_object-object c l b k sha auth config_key none s)
  handle-others auth delete_cfg s h =
      unfold delete_config in
      ground (arith, delete_metered-others c l b k sha auth config_key s (inl h))
  handle-others auth (save_cfg body) s h =
      unfold save_config in
      ground (
        arith,
        upload_metered-others c l b k sha auth
            (record {
              bucket = auth.repository;
              key = config_key;
              body = body;
              if_none_match = auth.write_once;
            })
            none s (inl h),
      )
  handle-others auth (list type accept) s h =
      ground (arith, list_blobs-object c l b k sha auth type s)
  handle-others auth (check type name) s h =
      ground (arith, check_object-object c l b k sha auth (blob_key type name) s)
  handle-others auth (delete type name) s h =
      unfold delete_blob in
      ground (arith, delete_metered-others c l b k sha auth (blob_key type name) s (inl h))
  handle-others auth (get type name range) s h =
      ground (arith, read_object-object c l b k sha auth (blob_key type name) range s)
  handle-others auth (save type name body) s h =
      unfold save_blob in
      ground (
        arith,
        upload_metered-others c l b k sha auth
            (record {
              bucket = auth.repository;
              key = blob_key type name;
              body = body;
              if_none_match = true;
            })
            (some name) s (inl h),
      )

  -- A request whose path names a repository changes no object of any other bucket, whatever its
  -- headers and token.
  pub serve-others :
      (tokens : Tokens) (header : Option Text) (p : ℕ) (request : Request) (s : App Store)
      → b ≢ p
      → c.object (serve c sha tokens header (some p) request s).1.store b k ≡ c.object s.store b k
  unfolding serve can_activate
  serve-others tokens header p request s h = elim (Result-cases (authenticate tokens header)) [
    | inr (e, refused) ↦ ground arith
    | inl (auth, passed) ↦ ground (arith, handle-others auth request s)
  ]

-- The claims behind an accepted request: a verified token, valid claims, and the repository of the path.
pub record IsGranted (tokens : Tokens) (header : Text) (path : Option ℕ) (auth : AuthDto)
    : Type 0 where
  pub token : Text
  pub claims : tokens.Claims
  pub basic : starts_with basic_prefix header ≡ true
  pub carried : token_of tokens header ≡ some token
  pub verified : tokens.verify token ≡ some claims
  pub valid : tokens.validate claims ≡ ok auth
  pub repository : (p : ℕ) → path ≡ some p → p ≡ auth.repository

check_token_sound :
    (tokens : Tokens) (carried : Option Text) (auth : AuthDto)
    → check_token tokens carried ≡ ok auth
    → (token : Text) × (claims : tokens.Claims) × (carried ≡ some token)
      × (tokens.verify token ≡ some claims)
      × (tokens.validate claims ≡ ok auth)
unfolding check_token
check_token_sound tokens none auth e = cc
check_token_sound tokens (some token) auth e = elim (Option-cases (tokens.verify token)) [
  | inl refused ↦ ground arith
  | inr (claims, verified) ↦ (token, claims, refl, verified, ground arith)
]

-- The guard lets a request pass only with a `Basic` header whose token is verified and carries valid
-- claims, and only for the repository of those claims.
pub can_activate-IsGranted :
    (tokens : Tokens) (header : Option Text) (path : Option ℕ) (auth : AuthDto)
    → can_activate tokens header path ≡ ok auth
    → (h : Text) × (header ≡ some h) × IsGranted tokens h path auth
unfolding can_activate authenticate
can_activate-IsGranted tokens none path auth e = cc
can_activate-IsGranted tokens (some []) path auth e = cc
can_activate-IsGranted tokens (some (ch ∷ h)) path auth e =
    let checked : (starts_with basic_prefix (ch ∷ h) ≡ true)
        × (check_token tokens (token_of tokens (ch ∷ h)) ≡ ok auth) =
      ground arith in
    let (token, claims, carried, verified, valid) =
      check_token_sound tokens (token_of tokens (ch ∷ h)) auth checked.1 in
    (
      ch ∷ h,
      refl,
      record {
        token = token;
        claims = claims;
        basic = checked.0;
        carried = carried;
        verified = verified;
        valid = valid;
        repository = λ p ep. ground arith;
      },
    )
