-- ===== src/Models/Jwk/Laws.antt =====
-- What `JWK.to_dict` emits, and that `JWK.from_dict` reads it back.
use webex_kms_sdk.Base.{
  String, ◌≡◌, refl, ◌∙◌, sym, ap, Bool, false, inl, inr, Bool-cases, ==→≡, true, false, Option,
  none, some, List, [], ◌∷◌, arith, ◌==◌, string_eq, if◌then◌else◌,
}
use webex_kms_sdk.Dict.{Dict, lookup, insert, lookup-insert}
use webex_kms_sdk.Text.{nonempty}
use webex_kms_sdk.Json.{string, Python, get, text_or_empty}
use webex_kms_sdk.Models.Jwk.{
  Jwk, add_populated, jwk_pairs, jwk_to_dict, text_fields, jwk_from_dict,
}

-- The value of a key after the loop.
abbrev emitted : String → List (String × String) → Option String → Option String
emitted key [] old = old
emitted key ((name, value) ∷ pairs) old =
    emitted key pairs (if key == name then (if nonempty value then some value else old) else old)

lookup-add_populated :
    (key : String) (pairs : List (String × String)) (d : Dict String String)
    → lookup key (add_populated pairs d) ≡ emitted key pairs (lookup key d)
unfolding add_populated
lookup-add_populated key [] d = refl
lookup-add_populated key ((name, String.[]) ∷ pairs) d =
    lookup-add_populated key pairs d ∙ ap (emitted key pairs) (ground arith)
lookup-add_populated key ((name, String.◌∷◌ c s) ∷ pairs) d =
    lookup-add_populated key pairs (insert name (String.◌∷◌ c s) d)
    ∙ ap (emitted key pairs) (lookup-insert key name (String.◌∷◌ c s) d)

-- What `str(d.get(k) or "")` gives of a stored text.
abbrev stored : Option String → String
stored none = ""
stored (some v) = v

text_or_empty-string : (py : Python) (v : String) → text_or_empty py (string v) ≡ v
unfolding text_or_empty
text_or_empty-string py String.[] = refl
text_or_empty-string py (String.◌∷◌ c s) = refl

text_or_empty-text_fields :
    (py : Python) (key : String) (d : Dict String String)
    → text_or_empty py (get key (text_fields d)) ≡ stored (lookup key d)
unfolding get text_fields lookup text_or_empty string_eq
text_or_empty-text_fields py key [] = refl
text_or_empty-text_fields py key ((j, v) ∷ d) = elim (Bool-cases (key == j)) [
  | inl e ↦ rw (e, ◌==◌) (text_or_empty-string py v)
  | inr e ↦ rw e (text_or_empty-text_fields py key d)
]

stored_if : (v : String) → stored (if nonempty v then some v else none) ≡ v
stored_if String.[] = refl
stored_if (String.◌∷◌ c s) = refl

module _ (py : Python) where
  read_emitted :
      (key : String) (pairs : List (String × String)) (d : Dict String String)
      → text_or_empty py (get key (text_fields (add_populated pairs d)))
        ≡ stored (emitted key pairs (lookup key d))
  read_emitted key pairs d =
      text_or_empty-text_fields py key (add_populated pairs d)
      ∙ ap stored (lookup-add_populated key pairs d)

  -- What is read back of one field.
  read_pair :
      (j : Jwk) (key : String)
      → text_or_empty py (get key (text_fields (jwk_to_dict true j)))
        ≡ stored (emitted key (jwk_pairs true j) (lookup key (("kty", j.kty) ∷ [])))
  unfolding jwk_to_dict
  read_pair j key = read_emitted key (jwk_pairs true j) (("kty", j.kty) ∷ [])

  read_k : (j : Jwk) → text_or_empty py (get "k" (text_fields (jwk_to_dict true j))) ≡ j.k
  unfolding string_eq lookup
  read_k j = read_pair j "k" ∙ stored_if j.k

  read_crv : (j : Jwk) → text_or_empty py (get "crv" (text_fields (jwk_to_dict true j))) ≡ j.crv
  unfolding string_eq lookup
  read_crv j = read_pair j "crv" ∙ stored_if j.crv

  read_x : (j : Jwk) → text_or_empty py (get "x" (text_fields (jwk_to_dict true j))) ≡ j.x
  unfolding string_eq lookup
  read_x j = read_pair j "x" ∙ stored_if j.x

  read_y : (j : Jwk) → text_or_empty py (get "y" (text_fields (jwk_to_dict true j))) ≡ j.y
  unfolding string_eq lookup
  read_y j = read_pair j "y" ∙ stored_if j.y

  read_d : (j : Jwk) → text_or_empty py (get "d" (text_fields (jwk_to_dict true j))) ≡ j.d
  unfolding string_eq lookup
  read_d j = read_pair j "d" ∙ stored_if j.d

  read_n : (j : Jwk) → text_or_empty py (get "n" (text_fields (jwk_to_dict true j))) ≡ j.n
  unfolding string_eq lookup
  read_n j = read_pair j "n" ∙ stored_if j.n

  read_e : (j : Jwk) → text_or_empty py (get "e" (text_fields (jwk_to_dict true j))) ≡ j.e
  unfolding string_eq lookup
  read_e j = read_pair j "e" ∙ stored_if j.e

  read_kid : (j : Jwk) → text_or_empty py (get "kid" (text_fields (jwk_to_dict true j))) ≡ j.kid
  unfolding string_eq lookup
  read_kid j = read_pair j "kid" ∙ stored_if j.kid

  read_alg : (j : Jwk) → text_or_empty py (get "alg" (text_fields (jwk_to_dict true j))) ≡ j.alg
  unfolding string_eq lookup
  read_alg j = read_pair j "alg" ∙ stored_if j.alg

  read_kty : (j : Jwk) → text_or_empty py (get "kty" (text_fields (jwk_to_dict true j))) ≡ j.kty
  unfolding string_eq lookup
  read_kty j = read_pair j "kty"

  -- Reading back what a key writes, the private fields included, gives the key.
  pub jwk_from_dict-jwk_to_dict :
      (j : Jwk) → jwk_from_dict py (text_fields (jwk_to_dict true j)) ≡ j
  unfolding jwk_from_dict
  jwk_from_dict-jwk_to_dict j = λ i. record {
    kty = read_kty j i;
    k = read_k j i;
    crv = read_crv j i;
    x = read_x j i;
    y = read_y j i;
    d = read_d j i;
    n = read_n j i;
    e = read_e j i;
    kid = read_kid j i;
    alg = read_alg j i;
  }

lookup-jwk_to_dict :
    (b : Bool) (j : Jwk) (name : String)
    → lookup name (jwk_to_dict b j)
      ≡ emitted name (jwk_pairs b j) (lookup name (("kty", j.kty) ∷ []))
unfolding jwk_to_dict
lookup-jwk_to_dict b j name = lookup-add_populated name (jwk_pairs b j) (("kty", j.kty) ∷ [])

public_d : (j : Jwk) → lookup "d" (jwk_to_dict false j) ≡ none
unfolding string_eq lookup
public_d j = lookup-jwk_to_dict false j "d"

public_other :
    (j : Jwk) (name : String)
    → (name == "d") ≡ false
    → lookup name (jwk_to_dict false j) ≡ lookup name (jwk_to_dict true j)
public_other j name h =
    lookup-jwk_to_dict false j name ∙ rw h refl ∙ sym (lookup-jwk_to_dict true j name)

-- Without the private fields `d` is not emitted, and every other field is as with them: also
-- `k`, which is the secret of a symmetric key.
pub lookup-jwk_to_dict_public :
    (j : Jwk) (name : String)
    → lookup name (jwk_to_dict false j)
      ≡ (if name == "d" then none else lookup name (jwk_to_dict true j))
lookup-jwk_to_dict_public j name = elim (Bool-cases (name == "d")) [
  | inl e ↦ rw (e, ◌==◌) (rw (==→≡ name "d" e) (public_d j))
  | inr e ↦ rw e (public_other j name e)
]
