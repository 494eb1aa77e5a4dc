-- ===== src/Error.antt =====
-- src/error.rs: the error type, its HTTP response, and the result type of the handlers.
use ruskery.Common.{
  ℕ, ◌⊎◌, inl, inr, ◌≡◌, ◌++◌, Str, codes, List, [], refl, if◌then◌else◌, Bool, arith, true, false,
}
use ruskery.Common.Int.{ℤ}

pub data Error : Type 0 where
  not_found unauthorized forbidden : Error
  bad_request : Str → Error
  conflict : Str → Error
  -- The HTTP status, the OCI code and the message.
  oci : ℕ → Str → Str → Error
  database other : Error

-- What a response carries: the two error schemas, bytes, the JSON of a tag list or of a catalog, an
-- index of referrers, or the JSON of an issued token.
pub data Body : Type 0 where
  no_body : Body
  oci_errors : Str → Str → Body
  oci_detail : Str → Str → Str → Body
  plain_error : Str → Str → Body
  bytes : Str → Body
  tag_list : Str → List Str → Body
  repositories : List Str → Body
  token_json : Str → ℤ → Str → Body

pub record Response : Type 0 where
  pub status : ℕ
  pub headers : List (Str × Str)
  pub body : Body

abbrev respond : ℕ → Body → Response
respond s b = record { status = s; headers = []; body = b }

-- `IntoResponse for Error`
unfoldable pub into_response : Error → Response
into_response (oci status code message) = respond status (oci_errors code message)
into_response not_found = respond 404 (plain_error (codes "not_found") (codes "not found"))
into_response unauthorized = respond 401 (plain_error (codes "unauthorized") (codes "unauthorized"))
into_response forbidden = respond 403 (plain_error (codes "forbidden") (codes "forbidden"))
into_response (bad_request m) =
    respond 400 (plain_error (codes "bad_request") (codes "bad request: " ++ m))
into_response (conflict m) = respond 409 (plain_error (codes "conflict") (codes "conflict: " ++ m))
into_response database =
    respond 500 (plain_error (codes "internal") (codes "internal server error"))
into_response other = respond 500 (plain_error (codes "internal") (codes "internal server error"))

-- `crate::error::Result`
pub data Result {ℓ} (T : Type ℓ) : Type ℓ where
  ok : T → Result T
  err : Error → Result T

-- An early return with the error, unless the test holds.
abbrev pub guard : Bool → Error → Result (Unit {0})
guard test failure = if test then ok tt else err failure

pub Result-cases {ℓ} :
    {T : Type ℓ} (r : Result T) → ((t : T) × (r ≡ ok t)) ⊎ ((e : Error) × (r ≡ err e))
Result-cases (ok t) = inl (t, refl)
Result-cases (err e) = inr (e, refl)

-- The `?` operator, with the value and without it.
infixl 5 ◌>>=◌ ◌>>◌
abbrev pub ◌>>=◌ {ℓ κ} : {T : Type ℓ} {U : Type κ} → Result T → (T → Result U) → Result U
err failure >>= rest = err failure
ok value >>= rest = rest value

abbrev pub ◌>>◌ {ℓ} : {U : Type ℓ} → Result (Unit {0}) → Result U → Result U
err failure >> rest = err failure
ok done >> rest = rest

-- A chain that succeeds has gone through every step.
pub >>=-ok {ℓ κ} :
    {T : Type ℓ} {U : Type κ} (r : Result T) (rest : T → Result U) (u : U)
    → (r >>= rest) ≡ ok u
    → (t : T) × (r ≡ ok t) × (rest t ≡ ok u)
>>=-ok (ok t) rest u h = (t, refl, h)
>>=-ok (err e) rest u h = absurd (ground arith)

pub >>-ok {ℓ} :
    {U : Type ℓ} (r : Result (Unit {0})) (rest : Result U) (u : U)
    → (r >> rest) ≡ ok u
    → (r ≡ ok tt) × (rest ≡ ok u)
>>-ok (ok _) rest u h = (refl, h)
>>-ok (err e) rest u h = absurd (ground arith)

pub guard-ok : (test : Bool) (e : Error) → guard test e ≡ ok tt → test ≡ true
guard-ok true e h = refl
guard-ok false e h = absurd (ground arith)
