-- ===== src/Encryption/Base64/Roundtrip.antt =====
-- Decoding what was encoded.
use webex_kms_sdk.Base.{
  ℕ, zero, suc, ◌+◌, ◌*◌, ◌/◌, ◌%◌, ◌<◌, ◌≡◌, refl, ◌∙◌, ap, Bool, true, false, not, ◌&&◌, Option,
  none, some, List, [], ◌∷◌, ◌++◌, eqb, ltb, length, arith,
}
use Prim.Native.Char.{code}
use webex_kms_sdk.Number.{Bytes}
use webex_kms_sdk.Exceptions.{Result, ok}
use webex_kms_sdk.Encryption.Base64.{
  codes, symbol, b64url_encode, sextet, take_sextet, a2b, Decoder, start_of_group, padding,
  all_ascii, b64url_decode, prepend, emit,
}

-- Each byte is below 256.
abbrev pub AreBytes : Bytes → Type 0
AreBytes [] = Unit
AreBytes (b ∷ bs) = (b < 256) × AreBytes bs

is_some_of : Option ℕ → ℕ → Bool
is_some_of none v = false
is_some_of (some w) v = eqb w v

symbol_good : ℕ → Bool
symbol_good v =
    is_some_of (sextet (code (symbol v))) v
    && (ltb (code (symbol v)) 128 && not (eqb (code (symbol v)) 61))

all_below : ℕ → Bool
all_below zero = true
all_below (suc n) = symbol_good n && all_below n

all_below_sound : (n v : ℕ) → all_below n ≡ true → v < n → symbol_good v ≡ true
unfolding all_below
all_below_sound zero v h lt = absurd (omega arith)
all_below_sound (suc n) v h lt = ground (arith, all_below_sound n v)

table : all_below 64 ≡ true
unfolding all_below symbol_good symbol sextet is_some_of
table = refl

module _ (v : ℕ) (h : v < 64) where
  good : symbol_good v ≡ true
  good = all_below_sound 64 v table h

  sextet-symbol : sextet (code (symbol v)) ≡ some v
  unfolding symbol_good is_some_of
  sextet-symbol = from_good (sextet (code (symbol v))) _ good
    where
      from_good : (o : Option ℕ) (b : Bool) → (is_some_of o v && b) ≡ true → o ≡ some v
      from_good none b e = cc
      from_good (some w) b e = ground arith

  symbol_ascii : (ltb (code (symbol v)) 128 ≡ true) × (eqb (code (symbol v)) 61 ≡ false)
  unfolding symbol_good
  symbol_ascii = parts (is_some_of (sextet (code (symbol v))) v) _ (eqb (code (symbol v)) 61) good
    where
      parts : (a b c : Bool) → (a && (b && not c)) ≡ true → (b ≡ true) × (c ≡ false)
      parts a b c e = ground arith

  -- One character of an encoding, decoded.
  a2b-symbol :
      (cs : List ℕ) (d : Decoder)
      → a2b (code (symbol v) ∷ cs) d ≡ emit (take_sextet v d).0 (a2b cs (take_sextet v d).1)
  unfolding a2b
  a2b-symbol cs d = rw (symbol_ascii.1, sextet-symbol)

a2b_nil : a2b [] start_of_group ≡ ok []
unfolding a2b
a2b_nil = refl

abbrev in_group : ℕ → ℕ → Decoder
in_group quad left = record { quad = quad; left = left; pads = 0 }

-- Two, three and four characters at the start of a group.
module _ (v0 v1 : ℕ) (h0 : v0 < 64) (h1 : v1 < 64) where
  a2b_two :
      (cs : List ℕ)
      → a2b (code (symbol v0) ∷ code (symbol v1) ∷ cs) start_of_group
        ≡ prepend (v0 * 4 + v1 / 16) (a2b cs (in_group 2 (v1 % 16)))
  unfolding take_sextet
  a2b_two cs =
      a2b-symbol v0 h0 (code (symbol v1) ∷ cs) start_of_group ∙ a2b-symbol v1 h1 cs (in_group 1 v0)

  module _ (v2 : ℕ) (h2 : v2 < 64) where
    a2b_three :
        (cs : List ℕ)
        → a2b (code (symbol v0) ∷ code (symbol v1) ∷ code (symbol v2) ∷ cs) start_of_group
          ≡ prepend
              (v0 * 4 + v1 / 16)
              (prepend (v1 % 16 * 16 + v2 / 4) (a2b cs (in_group 3 (v2 % 4))))
    unfolding take_sextet
    a2b_three cs =
        a2b_two (code (symbol v2) ∷ cs)
        ∙ ap (prepend (v0 * 4 + v1 / 16)) (a2b-symbol v2 h2 cs (in_group 2 (v1 % 16)))

    a2b_four :
        (v3 : ℕ) (h3 : v3 < 64) (cs : List ℕ)
        → a2b
            (code (symbol v0) ∷ code (symbol v1) ∷ code (symbol v2) ∷ code (symbol v3) ∷ cs)
            start_of_group
          ≡ prepend
              (v0 * 4 + v1 / 16)
              (prepend (v1 % 16 * 16 + v2 / 4) (prepend (v2 % 4 * 64 + v3) (a2b cs start_of_group)))
    unfolding take_sextet
    a2b_four v3 h3 cs =
        a2b_three (code (symbol v3) ∷ cs)
        ∙ ap (λ r. prepend (v0 * 4 + v1 / 16) (prepend (v1 % 16 * 16 + v2 / 4) r))
            (a2b-symbol v3 h3 cs (in_group 3 (v2 % 4)))

a2b_end_two : (left : ℕ) → a2b (61 ∷ 61 ∷ []) (in_group 2 left) ≡ ok []
unfolding a2b
a2b_end_two left = refl

a2b_end_three : (left : ℕ) → a2b (61 ∷ []) (in_group 3 left) ≡ ok []
unfolding a2b
a2b_end_three left = refl

-- The decoder over the characters of an encoding and the padding that makes its length a multiple
-- of four.
abbrev Decodes : Bytes → Type 0
Decodes bs =
    a2b (codes (b64url_encode bs) ++ padding (length (codes (b64url_encode bs)))) start_of_group
    ≡ ok bs

padding-add_four : (n : ℕ) → padding (suc (suc (suc (suc n)))) ≡ padding n
padding-add_four n = ground arith

ok_cons :
    {a a' : ℕ} {bs : Bytes} (r : Result Bytes) → a ≡ a' → r ≡ ok bs → prepend a r ≡ ok (a' ∷ bs)
ok_cons r p q = rw (p, q)

decodes : (bs : Bytes) → AreBytes bs → Decodes bs
unfolding b64url_encode
decodes [] h = a2b_nil
decodes (a ∷ []) h =
    a2b_two (a / 4) (a % 4 * 16) (omega arith) (omega arith) (61 ∷ 61 ∷ [])
    ∙ ok_cons _ (omega arith) (a2b_end_two _)
decodes (a ∷ b ∷ []) h =
    a2b_three (a / 4) (a % 4 * 16 + b / 16) (omega arith) (omega arith) (b % 16 * 4) (omega arith)
      (61 ∷ [])
    ∙ ok_cons _ (omega arith) (ok_cons _ (omega arith) (a2b_end_three _))
decodes (a ∷ b ∷ c ∷ rest) h =
    a2b_four (a / 4) (a % 4 * 16 + b / 16) (omega arith) (omega arith) (b % 16 * 4 + c / 64)
      (omega arith) (c % 64) (omega arith) _
    ∙ ok_cons _ (omega arith) (
        ok_cons _ (omega arith)
          (ok_cons _ (omega arith) (rw padding-add_four (decodes rest h.1.1.1))))

b64url_encode-ascii : (bs : Bytes) → AreBytes bs → all_ascii (codes (b64url_encode bs)) ≡ true
unfolding b64url_encode
b64url_encode-ascii [] h = refl
b64url_encode-ascii (a ∷ []) h =
    rw ((symbol_ascii (a / 4) (omega arith)).0, (symbol_ascii (a % 4 * 16) (omega arith)).0)
b64url_encode-ascii (a ∷ b ∷ []) h = rw (
  (symbol_ascii (a / 4) (omega arith)).0,
  (symbol_ascii (a % 4 * 16 + b / 16) (omega arith)).0,
  (symbol_ascii (b % 16 * 4) (omega arith)).0,
)
b64url_encode-ascii (a ∷ b ∷ c ∷ rest) h =
    rw
      (
        (symbol_ascii (a / 4) (omega arith)).0,
        (symbol_ascii (a % 4 * 16 + b / 16) (omega arith)).0,
        (symbol_ascii (b % 16 * 4 + c / 64) (omega arith)).0,
        (symbol_ascii (c % 64) (omega arith)).0,
      )
      (b64url_encode-ascii rest h.1.1.1)

-- Bytes that are encoded and decoded come back: the decoder restores the padding that the encoder
-- strips.
pub b64url_decode-b64url_encode :
    (bs : Bytes) → AreBytes bs → b64url_decode (b64url_encode bs) ≡ ok bs
unfolding b64url_decode
b64url_decode-b64url_encode bs h = rw (b64url_encode-ascii bs h) (decodes bs h)
