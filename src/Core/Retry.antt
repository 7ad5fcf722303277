-- ===== src/Core/Retry.antt =====
-- What `request_url` sends, how often, how long it waits, and which reply it returns.
use mathlib.Core.List.{append_assoc}
use webex_kms_sdk.Base.{
  ℕ, String, Option, zero, suc, ◌+◌, ◌≤◌, ◌≡◌, ◌⊎◌, refl, inl, inr, ◌∙◌, ap, subst, Bool, true,
  false, ◌&&◌, List, [], ◌∷◌, ◌++◌, Bool-cases, arith,
}
use webex_kms_sdk.Number.{Float}
use webex_kms_sdk.Exceptions.{Result, ok, err}
use webex_kms_sdk.Dict.{Dict}
use webex_kms_sdk.Json.{Json, Python}
use webex_kms_sdk.Http.{
  Request, Response, Traffic, sent, closed, slept, Net, next_reply, later_replies, send,
}
use webex_kms_sdk.Core.{
  CoreHttpClient, is_retryable, retry_delay, back_off, attempt_request, auth_headers, base_delay,
  request_url,
}

-- The requests of a log, and its sleeps.
abbrev pub requests : List Traffic → List Request
requests [] = []
requests (sent q ∷ log) = q ∷ requests log
requests (closed _ ∷ log) = requests log
requests (slept _ ∷ log) = requests log

abbrev pub sleeps : List Traffic → List Float
sleeps [] = []
sleeps (sent _ ∷ log) = sleeps log
sleeps (closed _ ∷ log) = sleeps log
sleeps (slept x ∷ log) = x ∷ sleeps log

abbrev pub replicate {ℓ} : {A : Type ℓ} → ℕ → A → List A
replicate zero a = []
replicate (suc n) a = a ∷ replicate n a

-- The reply to the request of index i, and the replies after the first n.
abbrev pub reply_at : ℕ → List (Result Response) → Result Response
reply_at zero rs = next_reply rs
reply_at (suc i) rs = reply_at i (later_replies rs)

abbrev pub drop_replies : ℕ → List (Result Response) → List (Result Response)
drop_replies zero rs = rs
drop_replies (suc n) rs = drop_replies n (later_replies rs)

abbrev pub is_retryable_reply : Result Response → Bool
is_retryable_reply (ok r) = is_retryable r.status_code
is_retryable_reply (err _) = false

-- The first n replies are all responses of a retryable status.
abbrev pub all_retryable : ℕ → List (Result Response) → Bool
all_retryable zero rs = true
all_retryable (suc n) rs = is_retryable_reply (next_reply rs) && all_retryable n (later_replies rs)

abbrev pub delay_after : Python → ℕ → ℕ → Result Response → List Float
delay_after py delay attempt (ok r) = retry_delay py r delay attempt ∷ []
delay_after py delay attempt (err _) = []

-- The delays after the first n replies, from an attempt on.
abbrev pub delays : Python → ℕ → ℕ → ℕ → List (Result Response) → List Float
delays py delay attempt zero rs = []
delays py delay attempt (suc n) rs =
    delay_after py delay attempt (next_reply rs)
    ++ delays py delay (attempt + 1) n (later_replies rs)

-- What the retry loop promises of a run that began at `w`.
pub record IsRetried (py : Python) (q : Request) (delay attempt left : ℕ) (w : Net)
    (out : Result Response × Net) : Type 0 where
  pub retries : ℕ
  pub within : retries ≤ left
  pub earlier : all_retryable retries w.replies ≡ true
  pub answer : out.0 ≡ reply_at retries w.replies
  pub ended : (retries ≡ left) ⊎ (is_retryable_reply out.0 ≡ false)
  pub consumed : out.1.replies ≡ drop_replies (suc retries) w.replies
  pub sends : requests out.1.log ≡ requests w.log ++ replicate (suc retries) q
  pub waits : sleeps out.1.log ≡ sleeps w.log ++ delays py delay attempt retries w.replies

requests-append : (a b : List Traffic) → requests (a ++ b) ≡ requests a ++ requests b
requests-append [] b = refl
requests-append (sent q ∷ a) b = ap (◌∷◌ q) (requests-append a b)
requests-append (closed _ ∷ a) b = requests-append a b
requests-append (slept _ ∷ a) b = requests-append a b

sleeps-append : (a b : List Traffic) → sleeps (a ++ b) ≡ sleeps a ++ sleeps b
sleeps-append [] b = refl
sleeps-append (sent q ∷ a) b = sleeps-append a b
sleeps-append (closed _ ∷ a) b = sleeps-append a b
sleeps-append (slept x ∷ a) b = ap (◌∷◌ x) (sleeps-append a b)

module _ (py : Python) (q : Request) (delay : ℕ) where
  send-IsRetried :
      (attempt left : ℕ) (w : Net)
      → ((0 ≡ left) ⊎ (is_retryable_reply (next_reply w.replies) ≡ false))
      → IsRetried py q delay attempt left w (send q w)
  unfolding send
  send-IsRetried attempt left w h = record {
    retries = 0;
    within = omega arith;
    earlier = refl;
    answer = refl;
    ended = h;
    consumed = refl;
    sends = requests-append w.log _;
    waits = sleeps-append w.log _;
  }

  abbrev after_back_off : Response → ℕ → Net → Net
  after_back_off r attempt w = back_off r (retry_delay py r delay attempt) (send q w).1

  -- One retry more, in front.
  retry-IsRetried :
      (attempt left : ℕ) (r : Response) (w : Net) (out : Result Response × Net)
      → next_reply w.replies ≡ ok r
      → is_retryable r.status_code ≡ true
      → IsRetried py q delay (attempt + 1) left (after_back_off r attempt w) out
      → IsRetried py q delay attempt (suc left) w out
  unfolding send
  retry-IsRetried attempt left r w out e t i = record {
    retries = suc i.retries;
    within = omega (arith, i.within);
    earlier = rw e (rw t i.earlier);
    answer = i.answer;
    ended = elim i.ended [ inl p ↦ inl (ap suc p) | inr p ↦ inr p ];
    consumed = i.consumed;
    sends = i.sends ∙ simp (requests-append, append_assoc);
    waits = i.waits ∙ rw e (simp (sleeps-append, append_assoc));
  }

  -- The loop sends one request at least and one for each attempt at most, always the same; it
  -- stops at the first reply that is not retryable, or at the last attempt; it returns that
  -- reply; and before each retry it sleeps once, for the delay of the reply before it.
  pub attempt_request-IsRetried :
      (left attempt : ℕ) (w : Net)
      → IsRetried py q delay attempt left w (attempt_request py q delay attempt left w)
  unfolding attempt_request send
  attempt_request-IsRetried zero attempt w = send-IsRetried attempt zero w (inl refl)
  attempt_request-IsRetried (suc left) attempt w =
      split (λ r. attempt_request-IsRetried left (attempt + 1) (after_back_off r attempt w))
        (next_reply w.replies) refl
    where
      stop :
          (reply : Result Response)
          → next_reply w.replies ≡ reply
          → is_retryable_reply reply ≡ false
          → IsRetried py q delay attempt (suc left) w (reply, (send q w).1)
      stop reply p n =
          subst (λ x. IsRetried py q delay attempt (suc left) w (x, (send q w).1)) p
            (send-IsRetried attempt (suc left) w (inr (rw p n)))

      split :
          ((r : Response)
            → IsRetried py q delay
                (attempt + 1)
                left
                (after_back_off r attempt w)
                (attempt_request py q delay (attempt + 1) left (after_back_off r attempt w)))
          → (reply : Result Response) → next_reply w.replies ≡ reply
          → IsRetried py q delay attempt
              (suc left)
              w
              (attempt_request py q delay attempt (suc left) w)
      split rest (err e) p = rw (p, attempt_request) (stop (err e) p refl)
      split rest (ok r) p = elim (Bool-cases (is_retryable r.status_code)) [
        | inl t ↦ rw (p, attempt_request) (rw t (retry-IsRetried attempt left r w _ p t (rest r)))
        | inr f ↦ rw (p, attempt_request) (rw f (stop (ok r) p f))
      ]

-- `request_url` sends the one request that its arguments, the token and the configured headers
-- make, at least once and at most once more than the configured retries; it stops at the first
-- reply that is not retryable, or at the last attempt; it returns that reply; and before each
-- retry it sleeps once, for the delay of the reply before it.
pub request_url-IsRetried :
    (py : Python) (core : CoreHttpClient) (method url : String) (params : Dict String String)
    (body : Option Json) (headers : Dict String String) (w : Net)
    → IsRetried py
        (record {
          method = method;
          url = url;
          params = params;
          body = body;
          headers = auth_headers core headers;
        })
        (base_delay core.config)
        0
        core.config.max_retries
        w
        (request_url py core method url params body headers w)
unfolding request_url
request_url-IsRetried py core method url params body headers w =
    attempt_request-IsRetried py _ (base_delay core.config) core.config.max_retries 0 w
