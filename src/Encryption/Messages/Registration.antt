-- ===== src/Encryption/Messages/Registration.antt =====
-- A request that is registered waits for its answer.
use webex_kms_sdk.Base.{
  ◌<◌, String, ◌≡◌, ap, sym, ◌∙◌, inl, inr, true, Bool-cases, ==→≡, ◌==◌, string_eq, nat_eq, Option,
  some, some-inj, arith,
}
use webex_kms_sdk.Dict.{lookup, insert, lookup-insert_self, lookup-insert_ne}
use webex_kms_sdk.Encryption.Crypto.{EcPrivateKey}
use webex_kms_sdk.Encryption.State.{
  waiting, PendingRequest, EncryptionClient, register_pending_request,
}
use webex_kms_sdk.Encryption.Messages.Delivery.{IsOpen}

-- The futures of the table are below the next one.
abbrev pub AreNumbered : EncryptionClient → Type 0
AreNumbered c =
    (s : String) (q : PendingRequest)
    → lookup s c.pending_requests ≡ some q
    → q.future < c.next_future

module _ (r : String) (key : Option EcPrivateKey) (c : EncryptionClient) where
  abbrev pub new_request : PendingRequest
  new_request = record { future = c.next_future; ecdh_private_key = key }

  -- What is in the table after a registration is the new request, or was there before.
  split :
      {P : Type 0} (s : String) (q : PendingRequest)
      → lookup s (insert r new_request c.pending_requests) ≡ some q
      → ((s == r) ≡ true → new_request ≡ q → P)
      → (lookup s c.pending_requests ≡ some q → P)
      → P
  split s q h new old = elim (Bool-cases (s == r)) [
    | inl e ↦ new e (
        some-inj new_request q
          (sym (lookup-insert_self r new_request c.pending_requests) ∙ rw (==→≡ s r e) at h))
    | inr e ↦ old (sym (lookup-insert_ne s r new_request c.pending_requests e) ∙ h)
  ]

  -- Where the futures of the table are below the next one, a registered request waits with a
  -- future that no other request has, and the futures are below the next one again: also where
  -- the identifier was in the table before.
  pub register_pending_request-IsOpen :
      AreNumbered c
      → IsOpen r new_request (register_pending_request r key c).1
        × AreNumbered (register_pending_request r key c).1
  unfolding register_pending_request
  register_pending_request-IsOpen numbered = (
    record {
      listed = lookup-insert_self r new_request c.pending_requests;
      open_future = lookup-insert_self c.next_future waiting c.futures;
      alone = λ s q h e.
          split s q h (λ t n. ==→≡ s r t) (λ o. absurd (let l = numbered s q o in omega arith));
    },
    λ s q h.
        split s q h (λ t n. omega (arith, ap (λ p. p.future) n))
          (λ o. let l = numbered s q o in omega arith),
  )
