-- ===== src/Encryption/Sharing/Answered.antt =====
-- The task that a caller of `get_key` waits for runs for its URI, or has left an outcome.
use webex_kms_sdk.Base.{
  arith, ◌<◌, ==→≡, ℕ, String, ◌≡◌, ◌⊎◌, refl, sym, ap, subst, ◌∙◌, inl, inr, Bool, true, false,
  Option, none, some, some-inj, is_some, Eq, ◌==◌, ==_refl, string_eq, nat_eq, if◌then◌else◌,
}
use webex_kms_sdk.Dict.{Dict, lookup, insert, erase, lookup-insert, lookup-erase}
use webex_kms_sdk.Exceptions.{Result}
use webex_kms_sdk.Models.Jwk.{Key}
use webex_kms_sdk.Encryption.State.{EncryptionClient}
use webex_kms_sdk.Encryption.Sharing.{Callers, answer, join_or_create}

module _ {ℓ κ} {K : Type ℓ} {V : Type κ} ⦃e : Eq K⦄ where
  pub lookup-erase_sub :
      (k j : K) (d : Dict K V) (v : V) → lookup k (erase j d) ≡ some v → lookup k d ≡ some v
  lookup-erase_sub k j d v h = by_key (k == j) (sym (lookup-erase k j d) ∙ h)
    where
      by_key : (b : Bool) → (if b then none else lookup k d) ≡ some v → lookup k d ≡ some v
      by_key true q = absurd (let l : none ≡ some v = q in cc)
      by_key false q = q

  insert_keeps :
      (k j : K) (v : V) (d : Dict K V)
      → is_some (lookup k d) ≡ true
      → is_some (lookup k (insert j v d)) ≡ true
  insert_keeps k j v d h = ap is_some (lookup-insert k j v d) ∙ by_key (k == j)
    where
      by_key : (b : Bool) → is_some (if b then some v else lookup k d) ≡ true
      by_key true = refl
      by_key false = h

  pub insert_self : (k : K) (v : V) (d : Dict K V) → is_some (lookup k (insert k v d)) ≡ true
  insert_self k v d =
      ap is_some (lookup-insert k k v d)
      ∙ ap (λ b. is_some (if b then some v else lookup k d)) (==_refl k)

-- The task runs or has left an outcome.
abbrev pub IsKnown : Callers → ℕ → Type 0
IsKnown s t = (is_some (lookup t s.running) ≡ true) ⊎ (is_some (lookup t s.outcomes) ≡ true)

-- The task is known, it is not yet to be created, and while it runs it retrieves the URI.
abbrev pub IsOwn : Callers → String → ℕ → Type 0
IsOwn s key_uri t =
    IsKnown s t × (t < s.next_task) × ((u : String) → lookup t s.running ≡ some u → u ≡ key_uri)

pub record IsAnswerable (s : Callers) : Type 0 where
  pub entries :
      (key_uri : String) (t : ℕ)
      → lookup key_uri s.client.inflight_keys ≡ some t
      → IsOwn s key_uri t
  pub waiters :
      (caller t : ℕ) (key_uri : String)
      → lookup caller s.waiting ≡ some (t, key_uri)
      → IsOwn s key_uri t

pub answer-IsAnswerable :
    (caller : ℕ) (r : Result Key) (s : Callers) → IsAnswerable s → IsAnswerable (answer caller r s)
answer-IsAnswerable caller r s h = record {
  entries = h.entries;
  waiters = λ c t u q. h.waiters c t u (lookup-erase_sub c caller s.waiting (t, u) q);
}

-- Of an insertion, the entry that is new and the entries that were there.
insert-IsKnown :
    {K V : Type 0} ⦃e : Eq K⦄ (Q : V → Type 0) (k j : K) (v w : V) (d : Dict K V)
    → (k ≡ j → Q v)
    → (lookup k d ≡ some w → Q w)
    → lookup k (insert j v d) ≡ some w
    → Q w
insert-IsKnown Q k j v w d n h q = by_key (k == j) refl (sym (lookup-insert k j v d) ∙ q)
  where
    by_key : (b : Bool) → (k == j) ≡ b → (if b then some v else lookup k d) ≡ some w → Q w
    by_key true e p = subst Q (some-inj v w p) (n (==→≡ k j e))
    by_key false e p = h p

pub join_or_create-IsAnswerable :
    (caller : ℕ) (key_uri : String) (o : Option ℕ) (s : Callers)
    → lookup key_uri s.client.inflight_keys ≡ o
    → IsAnswerable s
    → IsAnswerable (join_or_create caller key_uri o s)
unfolding join_or_create
join_or_create-IsAnswerable caller key_uri (some task) s e h = record {
  entries = h.entries;
  waiters = λ c t u.
      insert-IsKnown (λ (p : ℕ × String). IsOwn s p.1 p.0) c caller (task, key_uri) (t, u) s.waiting
        (λ _. h.entries key_uri task e) (h.waiters c t u);
}
join_or_create-IsAnswerable caller key_uri none s e h = record {
  entries = λ u t.
      insert-IsKnown (IsOwn created u) u key_uri s.next_task t s.client.inflight_keys
        (λ q. subst (λ x. IsOwn created x s.next_task) (sym q) fresh)
        (λ q. later u t (h.entries u t q));
  waiters = λ c t u.
      insert-IsKnown (λ (p : ℕ × String). IsOwn created p.1 p.0) c caller (s.next_task, key_uri)
        (t, u) s.waiting (λ _. fresh) (λ q. later u t (h.waiters c t u q));
}
  where
    created : Callers
    created = join_or_create caller key_uri none s

    of_new : (u : String) → lookup s.next_task created.running ≡ some u → u ≡ key_uri
    of_new u q = sym (
        some-inj key_uri u (
          sym (
            lookup-insert s.next_task s.next_task key_uri s.running
            ∙ ap (λ b. if b then some key_uri else lookup s.next_task s.running)
                (==_refl s.next_task))
          ∙ q))

    fresh : IsOwn created key_uri s.next_task
    fresh = (inl (insert_self s.next_task key_uri s.running), omega arith, of_new)

    still_known : (t : ℕ) → IsKnown s t → IsKnown created t
    still_known t (inl q) = inl (insert_keeps t s.next_task key_uri s.running q)
    still_known t (inr q) = inr q

    of_old :
        (u v : String) (t : ℕ) (b : Bool)
        → IsOwn s u t
        → (t == s.next_task) ≡ b
        → (if b then some key_uri else lookup t s.running) ≡ some v
        → v ≡ u
    of_old u v t true k q p = absurd (omega (arith, k.1, ==→≡ t s.next_task q))
    of_old u v t false k q p = k.2 v p

    later : (u : String) (t : ℕ) → IsOwn s u t → IsOwn created u t
    later u t k = (
      still_known t k.0,
      omega (arith, k.1),
      λ v q.
          of_old u v t (t == s.next_task) k refl
            (sym (lookup-insert t s.next_task key_uri s.running) ∙ q),
    )

-- A task that ends is known by its outcome.
ended-IsKnown :
    (task t : ℕ) (r : Result Key) (s : Callers) (c : EncryptionClient)
    → IsKnown s t
    → IsKnown
        (record s {
          client = c;
          running = erase task s.running;
          outcomes = insert task r s.outcomes;
        })
        t
ended-IsKnown task t r s c (inr q) = inr (insert_keeps t task r s.outcomes q)
ended-IsKnown task t r s c (inl q) = by_task (t == task) refl
  where
    by_task :
        (b : Bool)
        → (t == task) ≡ b
        → IsKnown
            (record s {
              client = c;
              running = erase task s.running;
              outcomes = insert task r s.outcomes;
            })
            t
    by_task true e = inr (
        ap is_some (lookup-insert t task r s.outcomes)
        ∙ ap (λ b. is_some (if b then some r else lookup t s.outcomes)) e)
    by_task false e = inl (
        ap is_some (lookup-erase t task s.running)
        ∙ ap (λ b. is_some (if b then none else lookup t s.running)) e
        ∙ q)

pub ended-IsOwn :
    (task t : ℕ) (u : String) (r : Result Key) (s : Callers) (c : EncryptionClient)
    → IsOwn s u t
    → IsOwn
        (record s {
          client = c;
          running = erase task s.running;
          outcomes = insert task r s.outcomes;
        })
        u
        t
ended-IsOwn task t u r s c k =
    (ended-IsKnown task t r s c k.0, k.1, λ v q. k.2 v (lookup-erase_sub t task s.running v q))
