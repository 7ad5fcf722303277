-- ===== src/Encryption/Session/Shrinks.antt =====
-- What awaiting leaves of the pending requests and of the context: no request is added, and the
-- context stays.
use webex_kms_sdk.Base.{
  ℕ, String, ◌≡◌, refl, inl, inr, ◌∙◌, ap, sym, Bool-cases, Option-cases, Option, none, some, List,
  [], ◌∷◌, ◌==◌, string_eq,
}
use webex_kms_sdk.Dict.{lookup, erase, lookup_of_erase, lookup-erase, lookup-insert_ne}
use webex_kms_sdk.Number.{Bytes}
use webex_kms_sdk.Exceptions.{Result, ok, err, Action, and_then}
use webex_kms_sdk.Json.{Json, Python}
use webex_kms_sdk.Core.{CoreHttpClient}
use webex_kms_sdk.Encryption.Crypto.{Crypto, EcPrivateKey}
use webex_kms_sdk.Encryption.State.{
  PendingRequest, EncryptionClient, register_pending_request, unregister_pending_request,
}
use webex_kms_sdk.Encryption.Messages.{snapshot, process_kms_messages}
use webex_kms_sdk.Encryption.Messages.Delivery.{
  SameButCache, Delivered, unnamed, unknown, late, answer,
}
use webex_kms_sdk.Encryption.Messages.Loop.{process_from-keeps}
use webex_kms_sdk.Encryption.Session.{
  Session, World, arrive, wait_for, await_future, request, future_outcome,
}

-- Each request of the second client is one of the first.
abbrev pub NoNew : EncryptionClient → EncryptionClient → Type 0
NoNew c c' =
    (k : String) (p : PendingRequest)
    → lookup k c'.pending_requests ≡ some p
    → lookup k c.pending_requests ≡ some p

pub record Shrinks (c c' : EncryptionClient) : Type 0 where
  pub pending : NoNew c c'
  pub context : c'.ecdh_context ≡ c.ecdh_context

pub Shrinks-refl : (c : EncryptionClient) → Shrinks c c
Shrinks-refl c = record { pending = λ k p h. h; context = refl }

pub Shrinks-trans : {c d e : EncryptionClient} → Shrinks c d → Shrinks d e → Shrinks c e
Shrinks-trans s t = record {
  pending = λ k p h. s.pending k p (t.pending k p h);
  context = t.context ∙ s.context;
}

SameButCache-Shrinks : {c c' : EncryptionClient} → SameButCache c c' → Shrinks c c'
SameButCache-Shrinks s = record { pending = λ k p h. rw s.pending at h; context = s.context }

erase-Shrinks :
    (r : String) (c c' : EncryptionClient)
    → c'.pending_requests ≡ erase r c.pending_requests
    → c'.ecdh_context ≡ c.ecdh_context
    → Shrinks c c'
erase-Shrinks r c c' e f = record {
  pending = λ k p h. lookup_of_erase k r p c.pending_requests (rw e at h);
  context = f;
}

-- The state that a call ends in shrinks.
pub record Keeps {A : Type 0} (c : EncryptionClient) (out : Result A × Session) : Type 0 where
  pub shrinks : Shrinks c out.1.client

pub unchanged : {A : Type 0} (r : Result A) (s : Session) → Keeps s.client (r, s)
unchanged r s = record { shrinks = Shrinks-refl s.client }

-- A chain of calls shrinks where each call does.
pub and_then-Keeps :
    {A B : Type 0} (c : EncryptionClient) (x : Result A × Session) (f : A → Action Session B)
    → Keeps c x
    → ((a : A) (s : Session) → Keeps s.client (f a s))
    → Keeps c (and_then x f)
and_then-Keeps c (ok a, s) f h k = record { shrinks = Shrinks-trans h.shrinks (k a s).shrinks }
and_then-Keeps c (err e, s) f h k = record { shrinks = h.shrinks }

module _ (py : Python) (crypto : Crypto) where
  Delivered-Shrinks :
      {c c' : EncryptionClient} (m : _) (b : Bytes) → Delivered py crypto m b c c' → Shrinks c c'
  Delivered-Shrinks m b (unnamed s) = SameButCache-Shrinks s
  Delivered-Shrinks m b (unknown n s) = SameButCache-Shrinks s
  Delivered-Shrinks {c} {c'} m b (late p e w s) =
      erase-Shrinks m.request_id c c' s.pending s.context
  Delivered-Shrinks {c} {c'} m b (answer p e w s) = erase-Shrinks m.request_id c c' (rw s) (rw s)

  pub process_kms_messages-Shrinks :
      (messages : List String) (c : EncryptionClient)
      → Shrinks c (process_kms_messages py crypto messages c).1
  unfolding process_kms_messages
  process_kms_messages-Shrinks messages c =
      process_from-keeps py crypto (snapshot c) messages (Shrinks c)
        (λ raw m b d d' i q s h. Shrinks-trans h (Delivered-Shrinks m b s)) messages c (λ raw i. i)
        (Shrinks-refl c)

  pub arrive-Shrinks :
      (batches : List (List String)) (c : EncryptionClient) → Shrinks c (arrive py crypto batches c)
  unfolding arrive
  arrive-Shrinks [] c = Shrinks-refl c
  arrive-Shrinks (batch ∷ batches) c =
      Shrinks-trans (process_kms_messages-Shrinks batch c) (arrive-Shrinks batches _)

  pub wait_for-Shrinks :
      (batches : List (List String)) (f : ℕ) (c : EncryptionClient)
      → Shrinks c (wait_for py crypto batches f c).1
  unfolding wait_for
  wait_for-Shrinks [] f c = elim (Option-cases (future_outcome f c)) [
    | inl e ↦ rw (e, wait_for) (record { pending = λ k p h. h; context = refl })
    | inr (r, e) ↦ rw (e, wait_for) (Shrinks-refl c)
  ]
  wait_for-Shrinks (batch ∷ batches) f c =
      let later =
        Shrinks-trans (process_kms_messages-Shrinks batch c) (wait_for-Shrinks batches f _) in
      elim (Option-cases (future_outcome f c)) [
        | inl e ↦ rw (e, wait_for) later
        | inr (r, e) ↦ rw (e, wait_for) (Shrinks-refl c)
      ]

  module _ (world : World) (core : CoreHttpClient) where
    pub await_future-Keeps :
        (f : ℕ) (s : Session) → Keeps s.client (await_future py crypto world core f s)
    unfolding await_future
    await_future-Keeps f s = record {
      shrinks = wait_for-Shrinks (world.arrivals s.ticks) f s.client;
    }

    pub request-Keeps :
        (method url : String) (body : Option Json) (headers : List (String × String)) (s : Session)
        → Keeps s.client (request py crypto world core method url body headers s)
    unfolding request
    request-Keeps method url body headers s = record {
      shrinks = arrive-Shrinks (world.arrivals s.ticks) s.client;
    }

-- A request that is registered and taken out again is gone, whatever came between.
pub unregister-Shrinks :
    (r : String) (key : Option EcPrivateKey) (c b d : EncryptionClient)
    → b ≡ (register_pending_request r key c).1
    → Shrinks b d
    → Shrinks c (unregister_pending_request r d)
unfolding register_pending_request unregister_pending_request
unregister-Shrinks r key c b d q s = record {
  pending = λ k p h. elim (Bool-cases (k == r)) [
    | inl e ↦
        absurd
          (let n : none ≡ some p = sym (lookup-erase k r d.pending_requests ∙ rw e refl) ∙ h in cc)
    | inr e ↦
        let m : lookup k _ ≡ some p =
          rw q at s.pending k p (lookup_of_erase k r p d.pending_requests h) in
        sym (lookup-insert_ne k r _ c.pending_requests e) ∙ m
  ];
  context = s.context ∙ ap (λ x. x.ecdh_context) q;
}
