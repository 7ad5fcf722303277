-- ===== src/Exceptions.antt =====
-- The exceptions of the program (`errors.py` and the Python ones that it raises or catches), and
-- computations that may raise, with and without a state.
use webex_kms_sdk.Base.{ℕ, String, ◌<>◌, Bool, true, false, Option, if◌then◌else◌}
use webex_kms_sdk.Number.{Float, Bytes, decimal}
use webex_kms_sdk.Text.{nonempty}

-- The subclasses of `APIError`; `plain` is the class itself.
pub data ApiKind : Type 0 where
  plain rate_limit auth forbidden not_found conflict gone locked : ApiKind
  precondition_required server : ApiKind

-- The fields of `APIError`.
pub record ApiError : Type 0 where
  pub status_code : ℕ
  pub status : String
  pub message : String
  pub tracking_id : String
  pub retry_after : Option Float
  pub raw_body : Bytes

-- `APIError.__str__`
unfoldable pub api_error_text : ApiError → String
unfolding decimal
api_error_text e =
    ("API error: " <> decimal e.status_code)
    <> ((if nonempty e.message then " - " <> e.message else "")
        <> (if nonempty e.tracking_id then (" (trackingId: " <> e.tracking_id) <> ")" else ""))

-- `foreign` is an exception of a library, with its text.
pub data Exception : Type 0 where
  api_error : ApiKind → ApiError → Exception
  kms_protocol_error runtime_error value_error json_decode_error : String → Exception
  unicode_error type_error attribute_error overflow_error foreign : String → Exception
  timeout_error cancelled_error : Exception

-- `str(err)`
unfoldable pub exception_text : Exception → String
unfolding api_error_text
exception_text (api_error _ e) = api_error_text e
exception_text (kms_protocol_error m) = m
exception_text (runtime_error m) = m
exception_text (value_error m) = m
exception_text (json_decode_error m) = m
exception_text (unicode_error m) = m
exception_text (type_error m) = m
exception_text (attribute_error m) = m
exception_text (overflow_error m) = m
exception_text (foreign m) = m
exception_text timeout_error = ""
exception_text cancelled_error = ""

-- `except ValueError` catches its subclasses too.
abbrev pub is_value_error : Exception → Bool
is_value_error (value_error _) = true
is_value_error (json_decode_error _) = true
is_value_error (unicode_error _) = true
is_value_error _ = false

-- `except Exception` lets a cancellation through.
abbrev pub is_exception : Exception → Bool
is_exception cancelled_error = false
is_exception _ = true

-- `except TypeError`
abbrev pub is_type_error : Exception → Bool
is_type_error (type_error _) = true
is_type_error _ = false

pub data Result {ℓ} (A : Type ℓ) : Type ℓ where
  ok : A → Result A
  err : Exception → Result A

-- A call over a state. What was written before a raise stays written.
abbrev pub Action : Type 0 → Type 0 → Type 0
Action S A = S → Result A × S

abbrev pub and_then : {S A B : Type 0} → Result A × S → (A → Action S B) → Result B × S
and_then (ok a, s) f = f a s
and_then (err e, s) f = (err e, s)

abbrev pub bind_result {ℓ κ} : {A : Type ℓ} {B : Type κ} → Result A → (A → Result B) → Result B
bind_result (ok a) f = f a
bind_result (err e) f = err e

pub bind_result-eq-ok {ℓ κ} :
    {A : Type ℓ} {B : Type κ} (m : Result A) (f : A → Result B) {b : B}
    → Path (Result B) (bind_result m f) (ok b)
    → (a : A) × Path (Result A) m (ok a) × Path (Result B) (f a) (ok b)
bind_result-eq-ok (ok a) f h = (a, λ i. ok a, h)
bind_result-eq-ok (err e) f h = cc
