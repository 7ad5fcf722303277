-- ===== src/Number.antt =====
-- Python's numbers: unbounded integers, floats, bytes.
use webex_kms_sdk.Base.{
  ℕ, zero, suc, ◌*◌, ◌/◌, ◌%◌, ◌^◌, String, ◌<>◌, Bool, true, false, not, List, eqb, ltb,
  if◌then◌else◌,
}

-- `negsuc n` is -(n + 1).
pub data ℤ : Type 0 where
  pos : ℕ → ℤ
  negsuc : ℕ → ℤ

-- A float. Every finite one is an integer multiple of 2^-1074, and `finite` holds that multiple.
pub data Float : Type 0 where
  finite : ℤ → Float
  infinite : Float
  minus_infinite : Float
  nan : Float

-- 1.0, and n seconds.
unfoldable pub one : ℕ
one = 2 ^ 1074

unfoldable pub seconds : ℕ → ℕ
unfolding one
seconds n = n * one

-- `bool(n)`
abbrev pub int_truthy : ℤ → Bool
int_truthy (pos n) = not (eqb n 0)
int_truthy (negsuc _) = true

abbrev pub float_truthy : Float → Bool
float_truthy (finite z) = int_truthy z
float_truthy _ = true

-- `n in {a, b}`, of naturals
abbrev pub int_is_either : ℤ → ℕ → ℕ → Bool
int_is_either (pos n) a b = if eqb n a then true else eqb n b
int_is_either (negsuc _) a b = false

-- A number of bytes, each below 256.
abbrev pub Bytes : Type 0
Bytes = List ℕ

digit : ℕ → String
digit n =
    if eqb n 0
    then "0"
    else if eqb n 1
    then "1"
    else if eqb n 2
    then "2"
    else if eqb n 3
    then "3"
    else if eqb n 4
    then "4"
    else if eqb n 5
    then "5"
    else if eqb n 6
    then "6"
    else if eqb n 7
    then "7"
    else if eqb n 8
    then "8"
    else "9"

digits : ℕ → ℕ → String
digits zero n = ""
digits (suc fuel) n =
    let more = digits fuel (n / 10) <> digit (n % 10) in if ltb n 10 then digit n else more

-- `str(n)`. Each round divides by ten, so n + 1 rounds are more than it makes.
unfoldable pub decimal : ℕ → String
unfolding digits digit
decimal n = digits (suc n) n
