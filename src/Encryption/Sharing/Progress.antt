-- ===== src/Encryption/Sharing/Progress.antt =====
-- Every caller of `get_key` that waits is answered when its task has ended.
use webex_kms_sdk.Base.{
  ℕ, String, ◌≡◌, ◌⊎◌, refl, sym, ap, ◌∙◌, inl, inr, true, false, Option-cases, none, some, is_some,
  [], ◌∷◌, ◌++◌, Eq, ==_refl, string_eq, nat_eq, if◌then◌else◌,
}
use webex_kms_sdk.Dict.{Dict, lookup, insert, erase, lookup-nil, lookup-insert, lookup-erase}
use webex_kms_sdk.Exceptions.{Result, ok, err}
use webex_kms_sdk.Json.{Python}
use webex_kms_sdk.Models.Jwk.{Key}
use webex_kms_sdk.Core.{CoreHttpClient}
use webex_kms_sdk.Encryption.Crypto.{Crypto}
use webex_kms_sdk.Encryption.Session.{World}
use webex_kms_sdk.Encryption.Sharing.{Callers, collect, finish, Step, resumes, Steps}
use webex_kms_sdk.Encryption.Sharing.Answered.{IsOwn, IsKnown}
use webex_kms_sdk.Encryption.Sharing.Reached.{Steps-IsAnswerable}

module _ (py : Python) (crypto : Crypto) (world : World) (core : CoreHttpClient) where
  -- The state after the caller has resumed from a task.
  abbrev pub resumed : ℕ → ℕ → String → Callers → Callers
  resumed caller task key_uri v = collect caller task key_uri (lookup task v.outcomes) v

  -- The caller can resume from its task in a state: it is then given the result, once and behind
  -- the answers of a state before, and waits no more.
  pub record IsCollected (s v : Callers) (caller task : ℕ) (key_uri : String) (result : Result Key)
      : Type 0 where
    pub step : Step py crypto world core v (resumed caller task key_uri v)
    pub given : (resumed caller task key_uri v).answers ≡ s.answers ++ ((caller, result) ∷ [])
    pub rests : lookup caller (resumed caller task key_uri v).waiting ≡ none

  -- The task has ended, and the caller can collect the outcome of it; or the task runs for the URI,
  -- and however it ends, the caller can collect that result then.
  pub data IsAnswered (s : Callers) (caller task : ℕ) (key_uri : String) : Type 0 where
    at_once :
        (result : Result Key)
        → lookup task s.running ≡ none
        → lookup task s.outcomes ≡ some result
        → IsCollected s s caller task key_uri result
        → IsAnswered s caller task key_uri
    at_the_end :
        lookup task s.running ≡ some key_uri
        → ((result : Result Key)
            → IsCollected s
                (finish py crypto world core task key_uri result s)
                caller
                task
                key_uri
                result)
        → IsAnswered s caller task key_uri

  lookup-erase_self : {V : Type 0} (k : ℕ) (d : Dict ℕ V) → lookup k (erase k d) ≡ none
  lookup-erase_self k d = lookup-erase k k d ∙ ap (λ b. if b then none else lookup k d) (==_refl k)

  lookup-insert_self :
      {V : Type 0} (k : ℕ) (v : V) (d : Dict ℕ V) → lookup k (insert k v d) ≡ some v
  lookup-insert_self k v d =
      lookup-insert k k v d ∙ ap (λ b. if b then some v else lookup k d) (==_refl k)

  -- A task that has ended is collected.
  collected :
      (s v : Callers) (caller task : ℕ) (key_uri : String) (r : Result Key)
      → v.answers ≡ s.answers
      → lookup caller v.waiting ≡ some (task, key_uri)
      → is_some (lookup task v.running) ≡ false
      → lookup task v.outcomes ≡ some r
      → IsCollected s v caller task key_uri r
  unfolding collect
  collected s v caller task key_uri r a w n o = record {
    step = resumes caller task key_uri w n;
    given =
        ap (λ x. (collect caller task key_uri x v).answers) o ∙ ap (λ l. l ++ ((caller, r) ∷ [])) a;
    rests =
        ap (λ x. lookup caller (collect caller task key_uri x v).waiting) o
        ∙ lookup-erase_self caller v.waiting;
  }

  finish_outcome :
      (task : ℕ) (key_uri : String) (r : Result Key) (s : Callers)
      → let v = finish py crypto world core task key_uri r s in
        (v.answers ≡ s.answers)
        × (v.waiting ≡ s.waiting)
        × (is_some (lookup task v.running) ≡ false)
        × (lookup task v.outcomes ≡ some r)
  unfolding finish
  finish_outcome task key_uri (err e) s = (
    refl,
    refl,
    ap is_some (lookup-erase_self task s.running),
    lookup-insert_self task (err e) s.outcomes,
  )
  finish_outcome task key_uri (ok key) s = (
    refl,
    refl,
    ap is_some (lookup-erase_self task s.running),
    lookup-insert_self task (ok key) s.outcomes,
  )

  -- After any steps of any number of callers from a state in which none waits and no task is
  -- inflight, take a caller that waits for a task. Either the task has ended with a result, and the
  -- caller can collect that result in its next step, or the task still runs, for the URI that the
  -- caller asked for, and with whatever result it ends, the caller can collect that result in the
  -- step after. By that step the caller is given the result, and nobody else an answer, and the
  -- caller waits no more.
  pub Steps-IsAnswered :
      (s t : Callers) (caller task : ℕ) (key_uri : String)
      → s.waiting ≡ []
      → s.client.inflight_keys ≡ []
      → Steps py crypto world core s t
      → lookup caller t.waiting ≡ some (task, key_uri)
      → IsAnswered t caller task key_uri
  Steps-IsAnswered s t caller task key_uri w i run q =
      by_task (Option-cases (lookup task t.running))
    where
      empty :
          {K V : Type 0} ⦃e : Eq K⦄ (k : K) (d : Dict K V) (v : V)
          → d ≡ []
          → lookup k d ≡ some v
          → ⊥
      empty k d v e p =
          let l : none ≡ some v = sym (lookup-nil k) ∙ ap (λ x. lookup k x) (sym e) ∙ p in cc

      own : IsOwn t key_uri task
      own =
          (Steps-IsAnswerable py crypto world core s t
              (record {
                entries = λ u x p. absurd (empty u s.client.inflight_keys x i p);
                waiters = λ c x u p. absurd (empty c s.waiting (x, u) w p);
              })
              run).waiters
            caller task key_uri q

      ended : lookup task t.running ≡ none → IsKnown t task → IsAnswered t caller task key_uri
      ended n (inl k) = absurd (let l : false ≡ true = sym (ap is_some n) ∙ k in cc)
      ended n (inr k) = elim (Option-cases (lookup task t.outcomes)) [
        | inl e ↦ absurd (let l : false ≡ true = sym (ap is_some e) ∙ k in cc)
        | inr (r, e) ↦ at_once r n e (collected t t caller task key_uri r refl q (ap is_some n) e)
      ]

      by_task :
          (lookup task t.running ≡ none) ⊎ ((u : String) × (lookup task t.running ≡ some u))
          → IsAnswered t caller task key_uri
      by_task (inl n) = ended n own.0
      by_task (inr (u, e)) =
          let e' : lookup task t.running ≡ some key_uri = e ∙ ap some (own.2 u e) in
          at_the_end e' λ r.
            let f = finish_outcome task key_uri r t in
            collected t (finish py crypto world core task key_uri r t) caller task key_uri r f.0
              (ap (λ d. lookup caller d) f.1 ∙ q) f.2 f.3
