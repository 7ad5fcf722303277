-- ===== src/Text/Laws.antt =====
-- What the prefix test and the split say of the text.
use Prim.Native.Char.{Char, code}
use mathlib.Core.Path.{ap₂}
use text.Mathlib.TextEquality.{Char-path}
use text.Mathlib.TextLemmas.{nil-append, cons-append}
use webex_kms_sdk.Base.{
  ℕ, String, ◌<>◌, ◌≡◌, refl, ◌∙◌, sym, ap, Bool, Option, true, false, Option, [], ◌∷◌, none, some,
  arith, eqb, Bool-cases, inl, inr, ◌||◌,
}
use webex_kms_sdk.Text.{startswith, includes, strip_prefix, cut, cut_after, split_once, occurrences}

pub eqb_refl : (n : ℕ) → eqb n n ≡ true
eqb_refl n = ground arith

eqb→eq : (n m : ℕ) → eqb n m ≡ true → n ≡ m
eqb→eq n m h = ground arith

pub strip_prefix-append : (p s : String) → strip_prefix (p <> s) p ≡ some s
unfolding strip_prefix
strip_prefix-append String.[] s = rw nil-append
strip_prefix-append (String.◌∷◌ c p) s =
    rw (cons-append c p s) (rw eqb_refl (strip_prefix-append p s))

pub append_of_strip_prefix : (s p r : String) → strip_prefix s p ≡ some r → s ≡ p <> r
unfolding strip_prefix
append_of_strip_prefix s String.[] r h = rw nil-append (cc)
append_of_strip_prefix String.[] (String.◌∷◌ c p) r h = cc
append_of_strip_prefix (String.◌∷◌ d s) (String.◌∷◌ c p) r h =
    elim (Bool-cases (eqb (code c) (code d))) [
      | inl e ↦
          ap₂ String.◌∷◌ (sym (Char-path c d (eqb→eq _ _ e)))
            (append_of_strip_prefix s p r (rw e at h))
          ∙ sym (cons-append c p r)
      | inr e ↦ absurd (let k : none ≡ some r = (rw e at h) in cc)
    ]

pub cut-append :
    (sep : Char) (a b : String)
    → occurrences sep a ≡ 0
    → cut sep (a <> String.◌∷◌ sep b) ≡ some (a, b)
unfolding cut occurrences
cut-append sep String.[] b h = rw (nil-append, eqb_refl)
cut-append sep (String.◌∷◌ c a) b h = elim (Bool-cases (eqb (code c) (code sep))) [
  | inl e ↦ absurd (ground arith)
  | inr e ↦ rw (cons-append, e, cut-append sep a b (ground arith))
]

abbrev pub found : String → String → Option (String × String)
found a b = some (a, b)

pair_parts : {a b c d : String} → found a b ≡ found c d → (a ≡ c) × (b ≡ d)
pair_parts h = (
  ap (λ o. elim o [ none ↦ String.[] | some (x, y) ↦ x ]) h,
  ap (λ o. elim o [ none ↦ String.[] | some (x, y) ↦ y ]) h,
)

pub append_of_cut :
    (sep : Char) (s a b : String)
    → cut sep s ≡ some (a, b)
    → (s ≡ a <> String.◌∷◌ sep b) × (occurrences sep a ≡ 0)
unfolding cut occurrences
append_of_cut sep String.[] a b h = absurd (cc)
append_of_cut sep (String.◌∷◌ c s) a b h = elim (Bool-cases (eqb (code c) (code sep))) [
  | inl e ↦ at_separator e (rw e at h)
  | inr e ↦ later (append_of_cut sep s) e (cut sep s) refl (rw e at h)
]
  where
    at_separator :
        eqb (code c) (code sep) ≡ true
        → found String.[] s ≡ found a b
        → (String.◌∷◌ c s ≡ a <> String.◌∷◌ sep b) × (occurrences sep a ≡ 0)
    at_separator e k =
        let (p, q) = pair_parts k in
        (rw (← p, nil-append) (ap₂ String.◌∷◌ (Char-path c sep (eqb→eq _ _ e)) q), rw (← p))

    later :
        ((x y : String)
          → cut sep s ≡ found x y
          → (s ≡ x <> String.◌∷◌ sep y) × (occurrences sep x ≡ 0))
        → eqb (code c) (code sep) ≡ false
        → (o : Option (String × String)) → cut sep s ≡ o
        → cut_after c o ≡ found a b
        → (String.◌∷◌ c s ≡ a <> String.◌∷◌ sep b) × (occurrences sep a ≡ 0)
    later rest e none q k = absurd (cc)
    later rest e (some (x, y)) q k =
        let (r, t) = rest x y q in
        let (p, z) = pair_parts k in
        (rw (← p, cons-append, ← z) (ap (String.◌∷◌ c) r), rw (← p, e) (omega (arith, t)))

pub cut_of_split_once :
    (sep : Char) (s a b : String) → split_once sep s ≡ a ∷ b ∷ [] → cut sep s ≡ found a b
unfolding split_once
cut_of_split_once sep s a b h = go (cut sep s) h
  where
    go :
        (o : Option (String × String))
        → (elim o [ none ↦ s ∷ [] | some (a, b) ↦ a ∷ b ∷ [] ]) ≡ a ∷ b ∷ []
        → o ≡ found a b
    go none k = absurd (cc)
    go (some (x, y)) k = cc

startswith-append : (p s : String) → startswith (p <> s) p ≡ true
unfolding startswith
startswith-append p s = rw strip_prefix-append

includes_of_startswith : (s p : String) → startswith s p ≡ true → includes s p ≡ true
unfolding includes
includes_of_startswith String.[] p h = h
includes_of_startswith (String.◌∷◌ c s) p h = rw h

-- A text includes what stands in its middle.
pub includes-append : (a p b : String) → includes (a <> (p <> b)) p ≡ true
unfolding includes
includes-append String.[] p b =
    rw nil-append (includes_of_startswith (p <> b) p (startswith-append p b))
includes-append (String.◌∷◌ c a) p b =
    rw (cons-append c a (p <> b), includes) (rw (includes-append a p b) (or_true _))
  where
    or_true : (x : Bool) → (x || true) ≡ true
    or_true true = refl
    or_true false = refl
