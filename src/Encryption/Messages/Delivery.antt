-- ===== src/Encryption/Messages/Delivery.antt =====
-- What one KMS message does to the pending requests, the futures and the key cache.
use webex_kms_sdk.Base.{
  ℕ, String, ◌≡◌, ◌⊎◌, refl, inl, inr, ◌∙◌, sym, ap, true, false, Option, none, some, List, [], ◌∷◌,
  ◌==◌, string_eq, nat_eq, arith, Bool-cases, Option-cases, some-inj, ==→≡, ==_refl,
}
use webex_kms_sdk.Dict.{
  lookup, insert, erase, lookup-insert, lookup-insert_self, lookup-insert_ne, lookup-erase_ne,
  lookup_of_erase,
}
use webex_kms_sdk.Number.{Bytes}
use webex_kms_sdk.Text.{nonempty}
use webex_kms_sdk.Models.Jwk.{Key}
use webex_kms_sdk.Models.KmsMessage.{KmsMessage}
use webex_kms_sdk.Encryption.State.{
  FutureState, waiting, resolved, PendingRequest, EncryptionClient, cache_key, cache_keys,
  is_waiting,
}
use webex_kms_sdk.Json.{Python}
use webex_kms_sdk.Encryption.Crypto.{Crypto}
use webex_kms_sdk.Encryption.Messages.{cache_message, deliver}

-- Two clients that agree but for the key cache.
pub record SameButCache (c c' : EncryptionClient) : Type 0 where
  pub inflight : c'.inflight_keys ≡ c.inflight_keys
  pub pending : c'.pending_requests ≡ c.pending_requests
  pub context : c'.ecdh_context ≡ c.ecdh_context
  pub futures : c'.futures ≡ c.futures
  pub next_future : c'.next_future ≡ c.next_future

SameButCache-refl : (c : EncryptionClient) → SameButCache c c
SameButCache-refl c = record {
  inflight = refl;
  pending = refl;
  context = refl;
  futures = refl;
  next_future = refl;
}

SameButCache-trans :
    {c d e : EncryptionClient} → SameButCache c d → SameButCache d e → SameButCache c e
SameButCache-trans s t = record {
  inflight = t.inflight ∙ s.inflight;
  pending = t.pending ∙ s.pending;
  context = t.context ∙ s.context;
  futures = t.futures ∙ s.futures;
  next_future = t.next_future ∙ s.next_future;
}

pub cache_key-SameButCache : (key : Key) (c : EncryptionClient) → SameButCache c (cache_key key c)
unfolding cache_key
cache_key-SameButCache key c = ground arith

pub cache_keys-SameButCache :
    (keys : List Key) (c : EncryptionClient) → SameButCache c (cache_keys keys c)
unfolding cache_keys
cache_keys-SameButCache [] c = SameButCache-refl c
cache_keys-SameButCache (key ∷ keys) c =
    SameButCache-trans (cache_key-SameButCache key c)
      (cache_keys-SameButCache keys (cache_key key c))

module _ (py : Python) (crypto : Crypto) where
  pub cache_message-SameButCache :
      (m : KmsMessage) (c : EncryptionClient) → SameButCache c (cache_message py crypto m c)
  unfolding cache_message
  cache_message-SameButCache m c = first m.key
    where
      first :
          (o : Option Key)
          → SameButCache c (cache_keys m.keys (elim o [ none ↦ c | some key ↦ cache_key key c ]))
      first none = cache_keys-SameButCache m.keys c
      first (some key) =
          SameButCache-trans (cache_key-SameButCache key c)
            (cache_keys-SameButCache m.keys (cache_key key c))

  -- The answer to a waiting request resolves its future and removes the request, and does nothing
  -- else.
  pub deliver_answer :
      (m : KmsMessage) (plaintext : Bytes) (p : PendingRequest) (c : EncryptionClient)
      → nonempty m.request_id ≡ true
      → lookup m.request_id c.pending_requests ≡ some p
      → lookup p.future c.futures ≡ some waiting
      → deliver py crypto m plaintext c ≡ record c {
        pending_requests = erase m.request_id c.pending_requests;
        futures = insert p.future (resolved plaintext) c.futures;
      }
  unfolding deliver
  deliver_answer m plaintext p c named found open_future = rw (named) (rw found (rw open_future))

  -- The four ways in which a message can act.
  pub data Delivered (m : KmsMessage) (plaintext : Bytes) (c c' : EncryptionClient) : Type 0 where
    unnamed : SameButCache c c' → Delivered m plaintext c c'
    unknown :
        lookup m.request_id c.pending_requests ≡ none
        → SameButCache c c'
        → Delivered m plaintext c c'
    late :
        (p : PendingRequest)
        → lookup m.request_id c.pending_requests ≡ some p
        → is_waiting (lookup p.future c.futures) ≡ false
        → SameButCache (record c { pending_requests = erase m.request_id c.pending_requests }) c'
        → Delivered m plaintext c c'
    answer :
        (p : PendingRequest)
        → lookup m.request_id c.pending_requests ≡ some p
        → is_waiting (lookup p.future c.futures) ≡ true
        → c' ≡ record c {
          pending_requests = erase m.request_id c.pending_requests;
          futures = insert p.future (resolved plaintext) c.futures;
        }
        → Delivered m plaintext c c'

  pub deliver-Delivered :
      (m : KmsMessage) (plaintext : Bytes) (c : EncryptionClient)
      → Delivered m plaintext c (deliver py crypto m plaintext c)
  unfolding deliver
  deliver-Delivered m plaintext c = elim (Bool-cases (nonempty m.request_id)) [
    | inr e ↦ rw e (unnamed (cache_message-SameButCache m c))
    | inl e ↦ rw e (elim (Option-cases (lookup m.request_id c.pending_requests)) [
      | inl n ↦ rw n (unknown n (cache_message-SameButCache m c))
      | inr (p, s) ↦ rw s (elim (Bool-cases (is_waiting (lookup p.future c.futures))) [
        | inl w ↦ rw w (answer p s w refl)
        | inr w ↦ rw w (late p s w (cache_message-SameButCache m _))
      ])
    ])
  ]

-- A future that is done keeps its state.
abbrev pub Settled : ℕ → FutureState → EncryptionClient → Type 0
Settled f st c = (lookup f c.futures ≡ some st) × (is_waiting (some st) ≡ false)

-- Where a request stands: it waits in the table, or its future has an answer. In the first case
-- no other request shares its future.
pub record IsOpen (r : String) (p : PendingRequest) (c : EncryptionClient) : Type 0 where
  pub listed : lookup r c.pending_requests ≡ some p
  pub open_future : lookup p.future c.futures ≡ some waiting
  pub alone :
      (s : String) (q : PendingRequest)
      → lookup s c.pending_requests ≡ some q
      → q.future ≡ p.future
      → s ≡ r

module _ (py : Python) (crypto : Crypto) where
  pub Delivered-Settled :
      (f : ℕ) (st : FutureState) (m : KmsMessage) (plaintext : Bytes) (c c' : EncryptionClient)
      → Delivered py crypto m plaintext c c'
      → Settled f st c
      → Settled f st c'
  Delivered-Settled f st m b c c' (unnamed s) h = (rw s.futures h.0, h.1)
  Delivered-Settled f st m b c c' (unknown n s) h = (rw s.futures h.0, h.1)
  Delivered-Settled f st m b c c' (late p e w s) h = (rw s.futures h.0, h.1)
  Delivered-Settled f st m b c c' (answer p e w s) h =
      rw s (ground (arith, lookup-insert f p.future (resolved b) c.futures), h.1)

  -- The table may lose other requests, and other futures may change.
  IsOpen-shrink :
      (r : String) (p : PendingRequest) (c c' : EncryptionClient)
      → IsOpen r p c
      → lookup r c'.pending_requests ≡ some p
      → lookup p.future c'.futures ≡ some waiting
      → ((s : String) (q : PendingRequest)
          → lookup s c'.pending_requests ≡ some q
          → lookup s c.pending_requests ≡ some q)
      → IsOpen r p c'
  IsOpen-shrink r p c c' h l o sub = record {
    listed = l;
    open_future = o;
    alone = λ s q f. h.alone s q (sub s q f);
  }

  IsOpen-SameButCache :
      (r : String) (p : PendingRequest) (c c' : EncryptionClient)
      → SameButCache c c'
      → IsOpen r p c
      → IsOpen r p c'
  IsOpen-SameButCache r p c c' s h =
      IsOpen-shrink r p c c' h (rw s.pending h.listed) (rw s.futures h.open_future)
        (λ t q f. rw s.pending at f)

  -- Another request leaves the table, and its future may change.
  IsOpen-erase :
      (r k : String) (p : PendingRequest) (c c' : EncryptionClient)
      → (r == k) ≡ false
      → c'.pending_requests ≡ erase k c.pending_requests
      → lookup p.future c'.futures ≡ some waiting
      → IsOpen r p c
      → IsOpen r p c'
  IsOpen-erase r k p c c' ne e o h =
      IsOpen-shrink r p c c' h (rw e (lookup-erase_ne r k c.pending_requests ne ∙ h.listed)) o
        (λ t q f. lookup_of_erase t k q c.pending_requests (rw e at f))

  same_request :
      (r k : String) (p q : PendingRequest) (c : EncryptionClient)
      → (r == k) ≡ true
      → IsOpen r p c
      → lookup k c.pending_requests ≡ some q
      → p ≡ q
  same_request r k p q c e h f =
      some-inj p q (sym h.listed ∙ ap (λ j. lookup j c.pending_requests) (==→≡ r k e) ∙ f)

  -- A request that waits goes on waiting, or the message is its answer.
  pub Delivered-IsOpen :
      (r : String) (p : PendingRequest) (m : KmsMessage) (b : Bytes) (c c' : EncryptionClient)
      → Delivered py crypto m b c c'
      → IsOpen r p c
      → IsOpen r p c' ⊎ ((m.request_id ≡ r) × (lookup p.future c'.futures ≡ some (resolved b)))
  Delivered-IsOpen r p m b c c' (unnamed s) h = inl (IsOpen-SameButCache r p c c' s h)
  Delivered-IsOpen r p m b c c' (unknown n s) h = inl (IsOpen-SameButCache r p c c' s h)
  Delivered-IsOpen r p m b c c' (late q e w s) h = elim (Bool-cases (r == m.request_id)) [
    | inl t ↦ absurd (
        let p≡q = same_request r m.request_id p q c t h e in
        let w' : is_waiting (lookup p.future c.futures) ≡ false = rw p≡q w in
        let w'' : is_waiting (some waiting) ≡ false = rw h.open_future at w' in cc)
    | inr t ↦ inl (IsOpen-erase r m.request_id p c c' t s.pending (rw s.futures h.open_future) h)
  ]
  Delivered-IsOpen r p m b c c' (answer q e w s) h = elim (Bool-cases (r == m.request_id)) [
    | inl t ↦ inr (
      sym (==→≡ r m.request_id t),
      rw (s, same_request r m.request_id p q c t h e)
          (lookup-insert_self q.future (resolved b) c.futures),
    )
    | inr t ↦ elim (Bool-cases (p.future == q.future)) [
      | inl f ↦ absurd (
          let k = h.alone m.request_id q e (sym (==→≡ p.future q.future f)) in
          let t' : (r == r) ≡ false = rw k at t in let u = ==_refl r in cc)
      | inr f ↦ inl (
          IsOpen-erase r m.request_id p c c' t (rw s)
            (rw s (lookup-insert_ne p.future q.future (resolved b) c.futures f ∙ h.open_future)) h)
    ]
  ]
