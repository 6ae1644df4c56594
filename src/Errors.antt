-- ===== src/Errors.antt =====
-- src/errors.rs: the error type of the services, its HTTP status and its code; and `Action`, a
-- service call on shared state, which keeps what it has written when it fails.
pub mod Keeping
use Prim.Native.Nat.{ℕ}
use mathlib.Core.Path.{◌≡◌, refl}
use mathlib.Core.Logic.{◌⊎◌, inl, inr}
use mathlib.Core.Bool.{Bool, true, false}
use mathlib.Core.Option.{Option, none, some}
use galynx_api.Text.{Str, text}

pub data ApiError : Type 0 where
  unauthorized : Str → ApiError
  bad_request : Str → ApiError
  too_many_requests : Str → ApiError
  not_found : Str → ApiError
  internal : Str → ApiError

pub data ApiResult (A : Type 0) : Type 0 where
  ok : A → ApiResult A
  err : ApiError → ApiResult A

-- `ApiError::status_code`
unfoldable pub status_code : ApiError → ℕ
status_code (unauthorized m) = 401
status_code (bad_request m) = 400
status_code (too_many_requests m) = 429
status_code (not_found m) = 404
status_code (internal m) = 500

-- `ApiError::code`
unfoldable pub error_code : ApiError → Str
error_code (unauthorized m) = text "unauthorized"
error_code (bad_request m) = text "bad_request"
error_code (too_many_requests m) = text "too_many_requests"
error_code (not_found m) = text "not_found"
error_code (internal m) = text "internal_error"

-- `to_string` of an error is its message.
unfoldable pub error_message : ApiError → Str
error_message (unauthorized m) = m
error_message (bad_request m) = m
error_message (too_many_requests m) = m
error_message (not_found m) = m
error_message (internal m) = m

pub record ErrorResponse : Type 0 where
  pub error : Str
  pub message : Str

-- `IntoResponse for ApiError`
unfoldable pub into_response : ApiError → ℕ × ErrorResponse
unfolding status_code error_code error_message
into_response e = (status_code e, record { error = error_code e; message = error_message e })

abbrev pub Action : Type 0 → Type 0 → Type 0
Action S A = S → ApiResult A × S

infixl 5 ◌>>=◌ ◌>>◌
abbrev pub ◌>>=◌ : {S A B : Type 0} → Action S A → (A → Action S B) → Action S B
◌>>=◌ m f s = let (r, s') = m s in elim r [ ok a ↦ f a s' | err e ↦ (err e, s') ]

abbrev pub ◌>>◌ : {S A B : Type 0} → Action S A → Action S B → Action S B
m >> k = m >>= λ _. k

module _ {S A : Type 0} where
  abbrev pub pure : A → Action S A
  pure a s = (ok a, s)

  abbrev pub fail : ApiError → Action S A
  fail e s = (err e, s)

  abbrev pub gets : (S → A) → Action S A
  gets f s = (ok (f s), s)

  -- `ok_or_else`
  abbrev pub or_fail : Option A → ApiError → Action S A
  or_fail none e = fail e
  or_fail (some a) e = pure a

  -- A computation that needs no state, under `?`.
  abbrev pub lift : ApiResult A → Action S A
  lift r s = (r, s)

abbrev pub modify : {S : Type 0} → (S → S) → Action S (Unit {0})
modify f s = (ok tt, f s)

-- `if b { return Err(e) }`
abbrev pub fail_if : {S : Type 0} → Bool → ApiError → Action S (Unit {0})
fail_if true e = fail e
fail_if false e = pure tt

abbrev pub is_ok : {A : Type 0} → ApiResult A → Bool
is_ok (ok a) = true
is_ok (err e) = false

pub ApiResult-cases :
    {A : Type 0} (r : ApiResult A) → ((a : A) × (r ≡ ok a)) ⊎ ((e : ApiError) × (r ≡ err e))
ApiResult-cases (ok a) = inl (a, refl)
ApiResult-cases (err e) = inr (e, refl)
