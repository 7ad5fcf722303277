-- ===== src/Encryption/Identity.antt =====
-- Identifiers and error classification of `src/webex_kms_sdk/encryption.py`:
-- `generate_request_id`, `decode_webex_id`, `_is_ecdh_session_error`.
pub mod Laws
use Prim.Native.Char.{Char, code}
use webex_kms_sdk.Base.{
  ℕ, zero, suc, ◌+◌, ◌-◌, ◌/◌, ◌%◌, String, ◌<>◌, Bool, true, false, ◌&&◌, ◌||◌, List, [], ◌∷◌, eqb,
  leb, if◌then◌else◌,
}
use webex_kms_sdk.Number.{Bytes}
use webex_kms_sdk.Exceptions.{Exception, exception_text, Result, ok, err}
use webex_kms_sdk.Text.{includes, after_last, count}
use webex_kms_sdk.Json.{Python}
use webex_kms_sdk.Encryption.Base64.{b64url_decode}

-- `[0-9a-fA-F]`
abbrev pub is_hex : ℕ → Bool
is_hex c = (leb b'0' c && leb c b'9') || ((leb b'a' c && leb c b'f') || (leb b'A' c && leb c b'F'))

-- So many hexadecimal digits, and then what the rest must be.
unfoldable pub hex_run : ℕ → (String → Bool) → String → Bool
hex_run zero rest s = rest s
hex_run (suc n) rest String.[] = false
hex_run (suc n) rest (String.◌∷◌ c s) = is_hex (code c) && hex_run n rest s

abbrev pub dash : (String → Bool) → String → Bool
dash rest String.[] = false
dash rest (String.◌∷◌ c s) = eqb (code c) b'-' && rest s

-- `$` matches at the end, and before a newline that ends the text.
abbrev pub at_end : String → Bool
at_end String.[] = true
at_end (String.◌∷◌ c String.[]) = eqb (code c) 10
at_end (String.◌∷◌ _ (String.◌∷◌ _ _)) = false

-- `UUID_RE.match`
unfoldable pub is_uuid : String → Bool
unfolding hex_run
is_uuid =
    hex_run 8 (dash (hex_run 4 (dash (hex_run 4 (dash (hex_run 4 (dash (hex_run 12 at_end))))))))

abbrev pub uuid_or : String → String → String
uuid_or candidate value = if is_uuid candidate then candidate else value

-- `_b64url_decode(value).decode("utf-8")`, with its `except`
abbrev pub decoded_id : Python → String → Result Bytes → String
decoded_id py value (err _) = value
decoded_id py value (ok bs) = elim (py.decode bs) [
  | err _ ↦ value
  | ok decoded ↦ uuid_or (after_last "/" decoded) value
]

-- `decode_webex_id`
unfoldable pub decode_webex_id : Python → String → String
decode_webex_id py value =
    if is_uuid value then value else decoded_id py value (b64url_decode value)

hex_digit : ℕ → String
hex_digit n =
    if eqb n 0
    then "0"
    else if eqb n 1
    then "1"
    else if eqb n 2
    then "2"
    else if eqb n 3
    then "3"
    else if eqb n 4
    then "4"
    else if eqb n 5
    then "5"
    else if eqb n 6
    then "6"
    else if eqb n 7
    then "7"
    else if eqb n 8
    then "8"
    else if eqb n 9
    then "9"
    else if eqb n 10
    then "a"
    else if eqb n 11
    then "b"
    else if eqb n 12
    then "c"
    else if eqb n 13
    then "d"
    else if eqb n 14
    then "e"
    else "f"

-- `data[i:j].hex()`, of so many bytes, and what follows of the rest.
unfoldable pub hex_then : ℕ → (Bytes → String) → Bytes → String
unfolding hex_digit
hex_then zero rest bs = rest bs
hex_then (suc n) rest [] = rest []
hex_then (suc n) rest (b ∷ bs) = (hex_digit (b / 16) <> hex_digit (b % 16)) <> hex_then n rest bs

abbrev pub after_dash : (Bytes → String) → Bytes → String
after_dash rest bs = "-" <> rest bs

-- `generate_request_id`, of the 16 random bytes
unfoldable pub generate_request_id : Bytes → String
unfolding hex_then
generate_request_id bs =
    "python-sdk-"
    <> hex_then 4
        (after_dash (
          hex_then 2 (
            after_dash (hex_then 2 (after_dash (hex_then 2 (after_dash (hex_then 6 (λ _. "")))))))))
        bs

-- `_is_ecdh_session_error`
unfoldable pub is_ecdh_session_error : Exception → Bool
is_ecdh_session_error e =
    let message = exception_text e in
    includes message "status 400"
    || (includes message "status 403"
        || (includes message "error decrypting" || includes message "failed with status"))
