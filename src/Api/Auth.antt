-- ===== src/Api/Auth.antt =====
-- internal/api/middleware.go: the test of the token and the CORS header before each handler.
use baleen_engine.Base.{
  Bool, not, ◌&&◌, ◌||◌, Option, none, some, [], ◌++◌, String, Text, text, ◌==◌, ==_iff,
  if◌then◌else◌, text_eq, string_eq, has_prefix, ◌≡◌, arith, Bool-cases, inl, inr, ◌⊎◌,
}

-- The parts of a request that the middleware reads.
pub record Headers : Type 0 where
  pub method : String
  pub origin : Text
  pub authorization : Text

pub data Passed : Type 0 where
  -- 200 to a preflight request, 401, and the next handler
  preflight unauthorized served : Passed

unfoldable pub is_local : Text → Bool
is_local origin =
    origin == text "http://localhost"
    || origin == text "http://127.0.0.1"
    || origin == text "docker-desktop://"
    || has_prefix origin (text "http://localhost:")
    || has_prefix origin (text "http://127.0.0.1:")

-- The Access-Control-Allow-Origin of the response.
unfoldable pub allowed_origin : Headers → Option Text
unfolding is_local
allowed_origin h = if not (h.origin == []) && is_local h.origin then some h.origin else none

-- corsAndAuthMiddleware
unfoldable pub cors_and_auth_middleware : Text → Headers → Passed
cors_and_auth_middleware required_token h =
    if h.method == "OPTIONS"
    then preflight
    else if required_token == []
    then served
    else if h.authorization == text "Bearer " ++ required_token
    then served
    else unauthorized

-- A request reaches a handler only if no token is set or it carries just that token.
pub served_has_token :
    (required_token : Text) (h : Headers)
    → cors_and_auth_middleware required_token h ≡ served
    → (required_token ≡ []) ⊎ (h.authorization ≡ text "Bearer " ++ required_token)
unfolding cors_and_auth_middleware
served_has_token required_token h s = elim (Bool-cases (h.method == "OPTIONS")) [
  | inl options ↦ ground (arith, s, options)
  | inr other ↦ elim (Bool-cases (required_token == [])) [
    | inl open_ ↦ inl (ground (arith, open_, ==_iff required_token []))
    | inr closed ↦ inr (
        ground (arith, s, other, closed, ==_iff h.authorization (text "Bearer " ++ required_token)))
  ]
]
