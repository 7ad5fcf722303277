-- ===== src/Encryption/Uri/Laws.antt =====
-- What `parse_kms_uri` accepts, and where the cluster functions send a request.
use text.Mathlib.TextLemmas.{cons-append, nil-append}
use webex_kms_sdk.Base.{
  ◌∙◌, sym, ap, Option-cases, String, ◌<>◌, ◌≡◌, ◌↔◌, inl, inr, true, some, List, [], ◌∷◌, arith,
}
use webex_kms_sdk.Exceptions.{Exception, Result, ok, err, is_value_error}
use webex_kms_sdk.Text.{nonempty, strip_prefix, split_once, occurrences}
use webex_kms_sdk.Text.Laws.{
  strip_prefix-append, append_of_strip_prefix, cut-append, append_of_cut, cut_of_split_once,
}
use webex_kms_sdk.Encryption.Uri.{kms_uri_prefix, uri_parts, parse_kms_uri}

-- The URIs that have the documented form, with their domain and path.
pub record IsKmsUri (uri domain path : String) : Type 0 where
  pub shape : uri ≡ kms_uri_prefix <> (domain <> ("/" <> path))
  pub domain_bare : occurrences "/" domain ≡ 0
  pub domain_present : nonempty domain ≡ true
  pub path_present : nonempty path ≡ true

slash-append : (path : String) → "/" <> path ≡ String.◌∷◌ "/" path
slash-append path = cons-append "/" "" path ∙ ap (String.◌∷◌ "/") (nil-append path)

parse_kms_uri_of_IsKmsUri :
    (uri domain path : String) → IsKmsUri uri domain path → parse_kms_uri uri ≡ ok (domain, path)
unfolding parse_kms_uri split_once
parse_kms_uri_of_IsKmsUri uri domain path v = rw (v.shape) (
    rw (strip_prefix-append, parse_kms_uri)
      (rw slash-append (
        rw (cut-append "/" domain path v.domain_bare, split_once)
          (rw (v.domain_present, v.path_present)))))

-- What a result says of the parts of the split.
parsed_parts :
    {a b c d : String} → Path (Result (String × String)) (ok (a, b)) (ok (c, d)) → (a ≡ c) × (b ≡ d)
parsed_parts h = (
  ap (λ r. elim r [ ok (x, y) ↦ x | err _ ↦ String.[] ]) h,
  ap (λ r. elim r [ ok (x, y) ↦ y | err _ ↦ String.[] ]) h,
)

data Accepted (parts : List String) (domain path : String) : Type 0 where
  accepted :
      parts ≡ domain ∷ path ∷ []
      → nonempty domain ≡ true
      → nonempty path ≡ true
      → Accepted parts domain path

abbrev parsed : String → String → Result (String × String)
parsed domain path = ok (domain, path)

uri_parts-Accepted :
    (uri : String) (parts : List String) (domain path : String)
    → uri_parts uri parts ≡ parsed domain path
    → Accepted parts domain path
uri_parts-Accepted uri [] domain path h = absurd (cc)
uri_parts-Accepted uri (a ∷ []) domain path h = absurd (cc)
uri_parts-Accepted uri (a ∷ b ∷ c ∷ r) domain path h = absurd (cc)
uri_parts-Accepted uri (String.[] ∷ b ∷ []) domain path h = absurd (cc)
uri_parts-Accepted uri (String.◌∷◌ c a ∷ String.[] ∷ []) domain path h = absurd (cc)
uri_parts-Accepted uri (String.◌∷◌ c a ∷ String.◌∷◌ c' b ∷ []) domain path h =
    let (p, q) = parsed_parts h in accepted (rw (p, q)) (rw (← p)) (rw (← q))

parse_kms_uri-IsKmsUri :
    (uri domain path : String) → parse_kms_uri uri ≡ parsed domain path → IsKmsUri uri domain path
unfolding parse_kms_uri split_once
parse_kms_uri-IsKmsUri uri domain path h = elim (Option-cases (strip_prefix uri kms_uri_prefix)) [
  | inl e ↦ absurd (
      let k : Path (Result (String × String)) (err _) (parsed domain path) =
        rw (e, parse_kms_uri) at h in
      cc)
  | inr (rest, e) ↦
      after_prefix rest e
        (uri_parts-Accepted uri (split_once "/" rest) domain path (rw (e, parse_kms_uri) at h))
]
  where
    after_prefix :
        (rest : String)
        → strip_prefix uri kms_uri_prefix ≡ some rest
        → Accepted (split_once "/" rest) domain path
        → IsKmsUri uri domain path
    after_prefix rest e (accepted parts p q) =
        let (shape, bare) =
          append_of_cut "/" rest domain path (cut_of_split_once "/" rest domain path parts) in
        record {
          shape =
              append_of_strip_prefix uri kms_uri_prefix rest e
              ∙ ap (◌<>◌ kms_uri_prefix) (shape ∙ ap (◌<>◌ domain) (sym (slash-append path)));
          domain_bare = bare;
          domain_present = p;
          path_present = q;
        }

-- A URI is accepted with a domain and a path exactly when it is `kms://`, the domain, which
-- holds no slash, a slash and the path, and neither the domain nor the path is empty.
pub parse_kms_uri_iff :
    (uri domain path : String) → (parse_kms_uri uri ≡ ok (domain, path)) ↔ IsKmsUri uri domain path
parse_kms_uri_iff uri domain path =
    (parse_kms_uri-IsKmsUri uri domain path, parse_kms_uri_of_IsKmsUri uri domain path)

-- What is not accepted raises a ValueError.
pub parse_kms_uri_error :
    (uri : String) (e : Exception) → parse_kms_uri uri ≡ err e → is_value_error e ≡ true
unfolding parse_kms_uri split_once
parse_kms_uri_error uri e h = ground arith
