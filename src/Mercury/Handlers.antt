-- ===== src/Mercury/Handlers.antt =====
-- Which handlers an event type has after a registration and after a removal.
use webex_kms_sdk.Base.{
  ℕ, String, ◌≡◌, ◌≢◌, refl, sym, subst, Bool, true, false, ==_refl, ◌∙◌, ap, inl, inr, Bool-cases,
  some, List, [], ◌∷◌, ◌++◌, ◌==◌, ==→≡, string_eq, nat_eq, if◌then◌else◌,
}
use webex_kms_sdk.Dict.{insert, erase, lookup-insert, lookup-erase}
use webex_kms_sdk.Mercury.{Registry, listed, handlers_for, on, without, store_handlers, off}

of_insert :
    (k t : String) (hs : List ℕ) (registry : Registry)
    → handlers_for k (insert t hs registry) ≡ (if k == t then hs else handlers_for k registry)
unfolding handlers_for
of_insert k t hs registry = elim (Bool-cases (k == t)) [
  | inl e ↦ ap listed (lookup-insert k t hs registry) ∙ rw e
  | inr e ↦ ap listed (lookup-insert k t hs registry) ∙ rw e
]

of_erase :
    (k t : String) (registry : Registry)
    → handlers_for k (erase t registry) ≡ (if k == t then [] else handlers_for k registry)
unfolding handlers_for
of_erase k t registry = elim (Bool-cases (k == t)) [
  | inl e ↦ ap listed (lookup-erase k t registry) ∙ rw e
  | inr e ↦ ap listed (lookup-erase k t registry) ∙ rw e
]

-- Registering a handler puts it behind the handlers of its event type, and leaves the handlers of
-- every other type.
pub handlers_for-on :
    (k t : String) (h : ℕ) (registry : Registry)
    → handlers_for k (on t (some h) registry)
      ≡ (if k == t then handlers_for t registry ++ (h ∷ []) else handlers_for k registry)
unfolding on
handlers_for-on k t h registry = of_insert k t (handlers_for t registry ++ (h ∷ [])) registry

of_store :
    (k t : String) (hs : List ℕ) (registry : Registry)
    → handlers_for k (store_handlers t hs registry)
      ≡ (if k == t then hs else handlers_for k registry)
of_store k t [] registry = of_erase k t registry
of_store k t (h ∷ hs) registry = of_insert k t (h ∷ hs) registry

of_off :
    (k t : String) (h : ℕ) (registry : Registry)
    → handlers_for k (off t h registry)
      ≡ (if k == t then without h (handlers_for t registry) else handlers_for k registry)
unfolding off without
of_off k t h registry = by_listed (handlers_for t registry) refl
  where
    by_listed :
        (hs : List ℕ)
        → handlers_for t registry ≡ hs
        → handlers_for k (off t h registry)
          ≡ (if k == t then without h (handlers_for t registry) else handlers_for k registry)
    by_listed [] e = elim (Bool-cases (k == t)) [
      | inl q ↦ rw (e, off) (rw (q, ◌==◌) (ap (λ x. handlers_for x registry) (==→≡ k t q) ∙ e))
      | inr q ↦ rw (e, off) (rw (q, ◌==◌))
    ]
    by_listed (x ∷ xs) e = rw (e, off) (of_store k t (without h (x ∷ xs)) registry)

-- The second list is the first without the entries that are the handler, in the same order.
pub data Removed (h : ℕ) : List ℕ → List ℕ → Type 0 where
  all_done : Removed h [] []
  drops : (x : ℕ) (xs ys : List ℕ) → x ≡ h → Removed h xs ys → Removed h (x ∷ xs) ys
  keeps : (x : ℕ) (xs ys : List ℕ) → x ≢ h → Removed h xs ys → Removed h (x ∷ xs) (x ∷ ys)

-- The handlers before and after, of the event type itself or of another one.
pub data IsRemoval (h : ℕ) : Bool → List ℕ → List ℕ → Type 0 where
  removed : (xs ys : List ℕ) → Removed h xs ys → IsRemoval h true xs ys
  unchanged : (xs : List ℕ) → IsRemoval h false xs xs

without-Removed : (h : ℕ) (xs : List ℕ) → Removed h xs (without h xs)
unfolding without
without-Removed h [] = all_done
without-Removed h (x ∷ xs) = by_flag (x == h) refl (without-Removed h xs)
  where
    by_flag :
        (b : Bool)
        → (x == h) ≡ b
        → Removed h xs (without h xs)
        → Removed h (x ∷ xs) (if b then without h xs else x ∷ without h xs)
    by_flag true e rest = drops x xs (without h xs) (==→≡ x h e) rest
    by_flag false e rest =
        keeps x xs (without h xs)
          (λ q. let f : false ≡ true = sym e ∙ ap (λ y. x == y) (sym q) ∙ ==_refl x in cc) rest

-- Removing a handler removes every entry of it from its event type, keeps the others, in their
-- order, and leaves the handlers of every other type.
pub handlers_for-off :
    (k t : String) (h : ℕ) (registry : Registry)
    → IsRemoval h (k == t) (handlers_for k registry) (handlers_for k (off t h registry))
handlers_for-off k t h registry = by_type (k == t) refl
  where
    by_type :
        (b : Bool)
        → (k == t) ≡ b
        → IsRemoval h b (handlers_for k registry) (handlers_for k (off t h registry))
    by_type true e =
        subst (IsRemoval h true (handlers_for k registry))
          (sym (
            of_off k t h registry
            ∙ ap (λ b. if b then without h (handlers_for t registry) else handlers_for k registry) e
            ∙ ap (λ u. without h (handlers_for u registry)) (sym (==→≡ k t e))))
          (removed (handlers_for k registry) (without h (handlers_for k registry))
            (without-Removed h (handlers_for k registry)))
    by_type false e =
        subst (IsRemoval h false (handlers_for k registry))
          (sym (
            of_off k t h registry
            ∙ ap (λ b. if b then without h (handlers_for t registry) else handlers_for k registry)
                e))
          (unchanged (handlers_for k registry))
