-- ===== src/Conversation/Texts.antt =====
-- Which messages are taken of a list of JSON values.
use webex_kms_sdk.Base.{
  String, ◌≡◌, ◌≢◌, refl, sym, ap, ◌∙◌, Bool, false, none, if◌then◌else◌, [], ◌∷◌, true, false,
  some, List,
}
use webex_kms_sdk.Text.{nonempty}
use webex_kms_sdk.Json.{Json, string, Items, nil, cons, as_text, to_list}
use webex_kms_sdk.Conversation.{texts}

-- The texts that are not empty among the values of a list, in their order.
pub data Texts : Items → List String → Type 0 where
  no_item : Texts nil []
  kept :
      (t : String) (vs : Items) (ts : List String)
      → nonempty t ≡ true
      → Texts vs ts
      → Texts (cons (string t) vs) (t ∷ ts)
  empty_text :
      (t : String) (vs : Items) (ts : List String)
      → nonempty t ≡ false
      → Texts vs ts
      → Texts (cons (string t) vs) ts
  other :
      (v : Json) (vs : Items) (ts : List String)
      → ((t : String) → v ≢ string t)
      → Texts vs ts
      → Texts (cons v vs) ts

pub texts-Texts : (vs : Items) → Texts vs (texts (to_list vs))
unfolding texts
texts-Texts nil = no_item
texts-Texts (cons v vs) = by_kind v (texts-Texts vs)
  where
    no_text : (v : Json) → as_text v ≡ none → (t : String) → v ≢ string t
    no_text v e t q = let f : none ≡ some t = sym e ∙ ap as_text q in cc

    by_flag :
        (t : String) (b : Bool)
        → nonempty t ≡ b
        → Texts vs (texts (to_list vs))
        → Texts (cons (string t) vs) (if b then t ∷ texts (to_list vs) else texts (to_list vs))
    by_flag t true e rest = kept t vs (texts (to_list vs)) e rest
    by_flag t false e rest = empty_text t vs (texts (to_list vs)) e rest

    by_kind :
        (v : Json) → Texts vs (texts (to_list vs)) → Texts (cons v vs) (texts (to_list (cons v vs)))
    by_kind (string t) rest = by_flag t (nonempty t) refl rest
    by_kind v rest = other v vs (texts (to_list vs)) (no_text v refl) rest
