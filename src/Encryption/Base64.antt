-- ===== src/Encryption/Base64.antt =====
-- `_b64url_encode` and `_b64url_decode` of `src/webex_kms_sdk/encryption.py`, which
-- `src/webex_kms_sdk/models.py` has once more, over Python's base64 alphabet and its lenient decoder.
pub mod Roundtrip
use Prim.Native.Char.{Char, code}
use Prim.Native.Nat.{compare, Ordering}
use webex_kms_sdk.Base.{
  ℕ, zero, suc, ◌+◌, ◌-◌, ◌*◌, ◌/◌, ◌%◌, String, Bool, true, false, ◌&&◌, ◌||◌, Option, none, some,
  List, [], ◌∷◌, ◌++◌, eqb, leb, ltb, length, if◌then◌else◌,
}
use webex_kms_sdk.Number.{Bytes}
use webex_kms_sdk.Exceptions.{Exception, Result, ok, err, value_error, unicode_error}

abbrev pub codes : String → List ℕ
codes String.[] = []
codes (String.◌∷◌ c s) = code c ∷ codes s

abbrev alphabet : String
alphabet = "ABCDEFGHIJKLMNOPQRSTUVWXYZabcdefghijklmnopqrstuvwxyz0123456789-_"

nth : String → ℕ → Char
nth String.[] i = "A"
nth (String.◌∷◌ c s) zero = c
nth (String.◌∷◌ c s) (suc i) = nth s i

-- The character of a group of six bits.
unfoldable pub symbol : ℕ → Char
unfolding nth
symbol = nth alphabet

-- `base64.urlsafe_b64encode(data).decode("ascii").rstrip("=")`
unfoldable pub b64url_encode : Bytes → String
b64url_encode [] = String.[]
b64url_encode (a ∷ []) = String.◌∷◌ (symbol (a / 4)) (String.◌∷◌ (symbol (a % 4 * 16)) String.[])
b64url_encode (a ∷ b ∷ []) =
    String.◌∷◌ (symbol (a / 4))
      (String.◌∷◌ (symbol (a % 4 * 16 + b / 16)) (String.◌∷◌ (symbol (b % 16 * 4)) String.[]))
b64url_encode (a ∷ b ∷ c ∷ rest) = String.◌∷◌ (symbol (a / 4)) (
    String.◌∷◌ (symbol (a % 4 * 16 + b / 16)) (
      String.◌∷◌ (symbol (b % 16 * 4 + c / 64))
        (String.◌∷◌ (symbol (c % 64)) (b64url_encode rest))))

-- The six bits of a character; `urlsafe_b64decode` takes `+` and `/` too.
unfoldable pub sextet : ℕ → Option ℕ
sextet c =
    if leb 65 c && leb c 90
    then some (c - 65)
    else if leb 97 c && leb c 122
    then some (c - 71)
    else if leb 48 c && leb c 57
    then some (c + 4)
    else if eqb c 45 || eqb c 43
    then some 62
    else if eqb c 95 || eqb c 47
    then some 63
    else none

abbrev pub prepend : ℕ → Result Bytes → Result Bytes
prepend b (ok bs) = ok (b ∷ bs)
prepend b (err e) = err e

-- The state of `binascii.a2b_base64`: the place in the group of four, the bits left over, and the
-- padding seen since the last character.
pub record Decoder : Type 0 where
  pub quad : ℕ
  pub left : ℕ
  pub pads : ℕ

abbrev pub start_of_group : Decoder
start_of_group = record { quad = 0; left = 0; pads = 0 }

-- A character of the alphabet: the byte that it completes, if one, and the next state.
unfoldable pub take_sextet : ℕ → Decoder → Option ℕ × Decoder
take_sextet v d =
    if eqb d.quad 0
    then (none, record { quad = 1; left = v; pads = 0 })
    else if eqb d.quad 1
    then (some (d.left * 4 + v / 16), record { quad = 2; left = v % 16; pads = 0 })
    else if eqb d.quad 2
    then (some (d.left * 16 + v / 4), record { quad = 3; left = v % 4; pads = 0 })
    else (some (d.left * 64 + v), start_of_group)

abbrev pub emit : Option ℕ → Result Bytes → Result Bytes
emit none r = r
emit (some b) r = prepend b r

-- `binascii.a2b_base64`, not strict: characters outside the alphabet are skipped, and padding that
-- completes a group ends the data.
unfoldable pub a2b : List ℕ → Decoder → Result Bytes
a2b [] d = if eqb d.quad 0 then ok [] else err (value_error "Incorrect padding")
a2b (c ∷ cs) d =
    let padded = a2b cs (if leb 2 d.quad then record d { pads = d.pads + 1 } else d) in
    let skipped = a2b cs d in
    if eqb c 61
    then if leb 2 d.quad && leb 4 (d.quad + (d.pads + 1)) then ok [] else padded
    else elim (sextet c) [
      | none ↦ skipped
      | some v ↦ let (byte, d') = take_sextet v d in emit byte (a2b cs d')
    ]

abbrev pub all_ascii : List ℕ → Bool
all_ascii [] = true
all_ascii (c ∷ cs) = ltb c 128 && all_ascii cs

-- `"=" * (-n % 4)`
abbrev pub padding : ℕ → List ℕ
padding n =
    let m = n % 4 in
    if eqb m 0
    then []
    else if eqb m 1
    then 61 ∷ 61 ∷ 61 ∷ []
    else if eqb m 2
    then 61 ∷ 61 ∷ []
    else 61 ∷ []

-- `_b64url_decode`
unfoldable pub b64url_decode : String → Result Bytes
b64url_decode value =
    let cs = codes value in
    if all_ascii cs
    then a2b (cs ++ padding (length cs)) start_of_group
    else err (unicode_error "'ascii' codec can't encode characters")
