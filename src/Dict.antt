-- ===== src/Dict.antt =====
-- Python dicts, in insertion order, and the laws by which the other modules use them.
use webex_kms_sdk.Base.{
  ◌≡◌, refl, ◌∙◌, sym, false, inl, inr, Bool-cases, ==_refl, Option, none, some, List, [], ◌∷◌, map,
  arith, Eq, ◌==◌, if◌then◌else◌,
}

abbrev pub Dict {ℓ κ} : Type ℓ → Type κ → Type (ℓ ⊔ κ)
Dict K V = List (K × V)

module _ {ℓ κ} {K : Type ℓ} {V : Type κ} where
  -- `list(d)` and `list(d.values())`
  abbrev pub keys : Dict K V → List K
  keys = map (λ (k, _). k)

  abbrev pub values : Dict K V → List V
  values = map (λ (_, v). v)

module _ {ℓ κ} {K : Type ℓ} {V : Type κ} ⦃e : Eq K⦄ where
  -- `d.get(k)`
  unfoldable pub lookup : K → Dict K V → Option V
  lookup k [] = none
  lookup k ((j, v) ∷ d) = if k == j then some v else lookup k d

  -- `d[k] = v`
  unfoldable pub insert : K → V → Dict K V → Dict K V
  insert k v [] = (k, v) ∷ []
  insert k v ((j, w) ∷ d) = if k == j then (j, v) ∷ d else (j, w) ∷ insert k v d

  -- `d.pop(k, None)` without its value. Each entry of the key goes; a dict has at most one.
  unfoldable pub erase : K → Dict K V → Dict K V
  erase k [] = []
  erase k ((j, w) ∷ d) = let rest = erase k d in if k == j then rest else (j, w) ∷ rest

  pub lookup-nil : (k : K) → lookup k [] ≡ none
  unfolding lookup
  lookup-nil k = refl

  pub lookup-cons :
      (k j : K) (v : V) (d : Dict K V)
      → lookup k ((j, v) ∷ d) ≡ (if k == j then some v else lookup k d)
  unfolding lookup
  lookup-cons k j v d = refl

  pub lookup-insert :
      (k j : K) (v : V) (d : Dict K V)
      → lookup k (insert j v d) ≡ (if k == j then some v else lookup k d)
  unfolding lookup insert
  lookup-insert k j v [] = ground arith
  lookup-insert k j v ((i, w) ∷ d) = ground (arith, lookup-insert k j v d)

  pub lookup-erase :
      (k j : K) (d : Dict K V) → lookup k (erase j d) ≡ (if k == j then none else lookup k d)
  unfolding lookup erase
  lookup-erase k j [] = ground arith
  lookup-erase k j ((i, w) ∷ d) = ground (arith, lookup-erase k j d)

  pub lookup-erase_ne :
      (k j : K) (d : Dict K V) → (k == j) ≡ false → lookup k (erase j d) ≡ lookup k d
  lookup-erase_ne k j d h = lookup-erase k j d ∙ rw h refl

  pub lookup-erase_self : (k : K) (d : Dict K V) → lookup k (erase k d) ≡ none
  lookup-erase_self k d = lookup-erase k k d ∙ rw (==_refl k) refl

  pub lookup-insert_self : (k : K) (v : V) (d : Dict K V) → lookup k (insert k v d) ≡ some v
  lookup-insert_self k v d = lookup-insert k k v d ∙ rw (==_refl k) refl

  pub lookup-insert_ne :
      (k j : K) (v : V) (d : Dict K V) → (k == j) ≡ false → lookup k (insert j v d) ≡ lookup k d
  lookup-insert_ne k j v d h = lookup-insert k j v d ∙ rw h refl

  pub lookup_of_erase :
      (k j : K) (v : V) (d : Dict K V) → lookup k (erase j d) ≡ some v → lookup k d ≡ some v
  lookup_of_erase k j v d h = elim (Bool-cases (k == j)) [
    | inl e ↦ absurd (let n : none ≡ some v = sym (lookup-erase k j d ∙ rw e refl) ∙ h in cc)
    | inr e ↦ sym (lookup-erase_ne k j d e) ∙ h
  ]
