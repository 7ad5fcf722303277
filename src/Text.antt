-- ===== src/Text.antt =====
-- The operations of Python's `str` that the program uses, over the native texts.
pub mod Laws
use Prim.Native.Char.{Char, code}
use webex_kms_sdk.Base.{
  ℕ, suc, ◌+◌, String, Bool, true, false, ◌||◌, Option, none, some, List, [], ◌∷◌, eqb, is_some,
  if◌then◌else◌,
}

-- `bool(s)`
abbrev pub nonempty : String → Bool
nonempty String.[] = false
nonempty (String.◌∷◌ _ _) = true

-- `s or t`
abbrev pub or_text : String → String → String
or_text s t = if nonempty s then s else t

-- `len(s)`
unfoldable pub count : String → ℕ
count String.[] = 0
count (String.◌∷◌ _ s) = suc (count s)

-- What follows the prefix, if the text begins with it.
unfoldable pub strip_prefix : String → String → Option String
strip_prefix s String.[] = some s
strip_prefix String.[] (String.◌∷◌ c p) = none
strip_prefix (String.◌∷◌ d s) (String.◌∷◌ c p) =
    if eqb (code c) (code d) then strip_prefix s p else none

-- `s.startswith(p)`
unfoldable pub startswith : String → String → Bool
unfolding strip_prefix
startswith s p = is_some (strip_prefix s p)

-- `s.removeprefix(p)`
unfoldable pub removeprefix : String → String → String
unfolding strip_prefix
removeprefix s p = elim (strip_prefix s p) [ none ↦ s | some rest ↦ rest ]

-- `p in s`
unfoldable pub includes : String → String → Bool
unfolding startswith
includes String.[] p = startswith String.[] p
includes (String.◌∷◌ c s) p = startswith (String.◌∷◌ c s) p || includes s p

-- `s.count(c)`, of one character
unfoldable pub occurrences : Char → String → ℕ
occurrences sep String.[] = 0
occurrences sep (String.◌∷◌ c s) = (if eqb (code c) (code sep) then 1 else 0) + occurrences sep s

abbrev pub cut_after : Char → Option (String × String) → Option (String × String)
cut_after c none = none
cut_after c (some (a, b)) = some (String.◌∷◌ c a, b)

-- The text before and after the first separator, if there is one.
unfoldable pub cut : Char → String → Option (String × String)
cut sep String.[] = none
cut sep (String.◌∷◌ c s) =
    if eqb (code c) (code sep) then some (String.[], s) else cut_after c (cut sep s)

-- `s.split(c, 1)`
unfoldable pub split_once : Char → String → List String
unfolding cut
split_once sep s = elim (cut sep s) [ none ↦ s ∷ [] | some (a, b) ↦ a ∷ b ∷ [] ]

-- `s.split(c)[-1]`, which is `s.rsplit(c, 1)[-1]`: what follows the last separator.
unfoldable pub after_last : Char → String → String
unfolding occurrences
after_last sep String.[] = String.[]
after_last sep (String.◌∷◌ c s) =
    let rest = after_last sep s in
    if eqb (occurrences sep s) 0
    then if eqb (code c) (code sep) then s else String.◌∷◌ c s
    else rest

-- `s.lstrip(c)` and `s.rstrip(c)`, of one character
unfoldable pub lstrip : Char → String → String
lstrip sep String.[] = String.[]
lstrip sep (String.◌∷◌ c s) =
    let rest = lstrip sep s in if eqb (code c) (code sep) then rest else String.◌∷◌ c s

abbrev pub keep_unless : Bool → Char → String → String
keep_unless true c String.[] = String.[]
keep_unless _ c rest = String.◌∷◌ c rest

unfoldable pub rstrip : Char → String → String
rstrip sep String.[] = String.[]
rstrip sep (String.◌∷◌ c s) = keep_unless (eqb (code c) (code sep)) c (rstrip sep s)
