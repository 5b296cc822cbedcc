-- ===== src/ResticApi/Access.antt =====
-- packages/restic-api/src/services/auth.service.ts and middleware/auth.guard.ts. The JWT library, the
-- class validator and the base64 decoder are parameters.
use yucca.Common.{
  ℕ, Bool, true, false, ◌==◌, Option, none, some, List, [], ◌∷◌, ◌++◌, Text, get_last?,
  if◌then◌else◌, String,
}
use yucca.Common.Monad.{Result, ok, err}
use yucca.ResticApi.Types.{AuthDto, Error, unauthorized, bad_request}

-- `Claims` is the verified payload of a token; `validate` is `plainToInstance` with `validate`, and
-- answers with the instance or with the messages of the violated constraints.
pub record Tokens : Type 1 where
  pub Claims : Type 0
  pub decode_base64 : Text → Text
  pub verify : Text → Option Claims
  pub validate : Claims → Result String AuthDto

-- `text.split(sep)`
unfoldable pub split : ℕ → Text → Text → List Text
split sep cur [] = cur ∷ []
split sep cur (ch ∷ s) =
    let closed = cur ∷ split sep [] s in
    let longer = split sep (cur ++ ch ∷ []) s in if ch == sep then closed else longer

abbrev pub basic_prefix : Text
basic_prefix = b'B' ∷ b'a' ∷ b's' ∷ b'i' ∷ b'c' ∷ b' ' ∷ []

unfoldable pub starts_with : Text → Text → Bool
starts_with [] s = true
starts_with (p ∷ ps) [] = false
starts_with (p ∷ ps) (ch ∷ s) = if p == ch then starts_with ps s else false

-- `split(' ').pop() || ''`
unfoldable pub credentials : Text → Text
unfolding split
credentials header = elim (get_last? (split b' ' [] header)) [ none ↦ [] | some t ↦ t ]

-- `const [_, token] = auth.split(':')`, where an empty token is falsy
unfoldable pub second : List Text → Option Text
second [] = none
second (x ∷ []) = none
second (x ∷ [] ∷ rest) = none
second (x ∷ (t ∷ ts) ∷ rest) = some (t ∷ ts)

module _ (tokens : Tokens) where
  open tokens use {decode_base64, verify, validate}

  -- the token that a header carries
  unfoldable pub token_of : Text → Option Text
  token_of header = second (split b':' [] (decode_base64 (credentials header)))

  -- `authenticate`, from the token on
  unfoldable pub check_token : Option Text → Result Error AuthDto
  check_token none = err (unauthorized "Expected Basic auth token")
  check_token (some token) = elim (verify token) [
    | none ↦ err (unauthorized "Invalid JWT Token")
    | some claims ↦ elim (validate claims) [
      | ok auth ↦ ok auth
      | err messages ↦ err (bad_request messages)
    ]
  ]

  unfoldable pub authenticate : Option Text → Result Error AuthDto
  authenticate none = err (unauthorized "Missing Authorization header")
  authenticate (some []) = err (unauthorized "Missing Authorization header")
  authenticate (some (ch ∷ s)) =
      if starts_with basic_prefix (ch ∷ s)
      then check_token (token_of (ch ∷ s))
      else err (unauthorized "Expected Basic auth")

  -- `canActivate` on a route marked `@AuthRoute()`, whose path may name a repository
  unfoldable pub can_activate : Option Text → Option ℕ → Result Error AuthDto
  can_activate header path = elim (authenticate header) [
    | err e ↦ err e
    | ok auth ↦ elim path [
      | none ↦ ok auth
      | some p ↦ if p == auth.repository then ok auth else err (bad_request "Repository mismatch")
    ]
  ]
