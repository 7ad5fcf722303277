-- ===== src/Mercury/Backoff.antt =====
-- How often `_connect_with_backoff` tries, how long it waits, and how it ends.
use mathlib.Core.List.{append_assoc, append-nil}
use webex_kms_sdk.Base.{
  ℕ, zero, suc, ◌+◌, ◌*◌, ◌≤◌, String, ◌≡◌, refl, ap, subst, ◌∙◌, Bool, true, false, List, [], ◌∷◌,
  ◌++◌, length, arith, if◌then◌else◌,
}
use webex_kms_sdk.Exceptions.{Exception, is_exception, Result, ok, err}
use webex_kms_sdk.Json.{Python}
use webex_kms_sdk.Core.{CoreHttpClient}
use webex_kms_sdk.Mercury.Client.{MercuryClient, waited, MercurySession, MercuryWorld, log_action}
use webex_kms_sdk.Mercury.Authentication.{publish_connection, attempt_connection}
use webex_kms_sdk.Mercury.Connection.{
  min, max_retries, gave_up, stop_connecting, exhausted, after_attempt, attempt_connections,
  connect_with_backoff,
}
use webex_kms_sdk.Mercury.Delays.{
  loop_delays, backoffs, loop_delays-backoffs, all_at_most, backoffs_bounded, length-backoffs,
}
use webex_kms_sdk.Mercury.Growth.{waits, waits-append, Confirmed, Grows}
use webex_kms_sdk.Mercury.Attempt.{Attempted, failed, published, attempt_connection-Attempted}

abbrev longest : CoreHttpClient → ℕ
longest core = core.config.mercury_backoff_time_max

module _ {P : Type 0} (py : Python) where
  -- How a run ends, of a client, with so many attempts in all and so many retries allowed and made.
  pub data Ended (c : MercuryClient P) (attempts left retries : ℕ)
      : Result (Unit {0}) × MercurySession P → Type 0 where
    connects :
        (ws : ℕ) (t : MercurySession P)
        → t.client ≡ c
        → Confirmed py ws t.log
        → Ended c attempts left retries (ok tt, publish_connection ws t)
    gives_up :
        (e : Exception) (n : ℕ) (t : MercurySession P)
        → n ≡ attempts
        → retries ≡ left
        → t.client ≡ c
        → Ended c attempts left retries (err (gave_up n e), stop_connecting t)
    interrupted :
        (e : Exception) (t : MercurySession P)
        → is_exception e ≡ false
        → t.client ≡ c
        → Ended c attempts left retries (err e, t)

  -- What the loop promises of a run from a state, with so many retries left and so many done.
  pub record IsBackedOff (s : MercurySession P) (left count delay cap : ℕ)
      (out : Result (Unit {0}) × MercurySession P) : Type 0 where
    pub retries : ℕ
    pub within : retries ≤ left
    pub delays : waits out.1.log ≡ waits s.log ++ backoffs delay cap retries
    pub ended : Ended s.client (count + left + 1) left retries out

  record IsRun (s : MercurySession P) (left count delay cap : ℕ)
      (out : Result (Unit {0}) × MercurySession P) : Type 0 where
    retries : ℕ
    within : retries ≤ left
    delays : waits out.1.log ≡ waits s.log ++ loop_delays delay cap retries
    ended : Ended s.client (count + left + 1) left retries out

  waits-Grows : (s t : MercurySession P) → Grows s t → waits t.log ≡ waits s.log ++ []
  waits-Grows s t g =
      ap waits g.log ∙ waits-append s.log g.more ∙ ap (λ l. waits s.log ++ l) g.no_waits

  -- A run without a retry.
  IsRun-here :
      (s t : MercurySession P) (left count delay cap : ℕ)
      (out : Result (Unit {0}) × MercurySession P)
      → out.1.log ≡ t.log
      → Grows s t
      → Ended s.client (count + left + 1) left 0 out
      → IsRun s left count delay cap out
  IsRun-here s t left count delay cap out e g h = record {
    retries = 0;
    within = omega arith;
    delays = ap waits e ∙ waits-Grows s t g;
    ended = h;
  }

  Ended-later :
      (c : MercuryClient P) (a b left retries : ℕ) (out : Result (Unit {0}) × MercurySession P)
      → a ≡ b
      → Ended c a left retries out
      → Ended c b (suc left) (suc retries) out
  Ended-later c a b left retries _ e (connects ws t p q) = connects ws t p q
  Ended-later c a b left retries _ e (gives_up x n t p q r) = gives_up x n t (p ∙ e) (ap suc q) r
  Ended-later c a b left retries _ e (interrupted x t p q) = interrupted x t p q

  -- One retry more, in front.
  IsRun-retry :
      (s t : MercurySession P) (left count delay cap : ℕ)
      (out : Result (Unit {0}) × MercurySession P)
      → Grows s t
      → IsRun (log_action (waited delay) t) left (count + 1) (min (delay * 2) cap) cap out
      → IsRun s (suc left) count delay cap out
  IsRun-retry s t left count delay cap out g r = record {
    retries = suc r.retries;
    within = omega (arith, r.within);
    delays =
        r.delays
        ∙ ap (λ l. l ++ later)
            (waits-append t.log (waited delay ∷ [])
              ∙ ap (λ l. l ++ (delay ∷ [])) (waits-Grows s t g ∙ append-nil (waits s.log)))
        ∙ append_assoc (waits s.log) (delay ∷ []) later;
    ended =
        Ended-later s.client _ (count + suc left + 1) left r.retries out (omega arith)
          (subst (λ c. Ended c (count + 1 + left + 1) left r.retries out) g.client r.ended);
  }
    where
      later : List ℕ
      later = loop_delays (min (delay * 2) cap) cap r.retries

  module _ (world : MercuryWorld) (core : CoreHttpClient) where
    exhausted-IsRun :
        (s : MercurySession P) (count delay : ℕ) (out : Result (Unit {0}) × MercurySession P)
        → Attempted py s out
        → IsRun s 0 count delay (longest core) (exhausted py world core (count + 1) out)
    unfolding publish_connection
    exhausted-IsRun s count delay _ (published ws t g h) =
        IsRun-here s t 0 count delay (longest core) _ refl g (connects ws t g.client h)
    exhausted-IsRun s count delay _ (failed e t g) = by_kind (is_exception e) refl
      where
        by_kind :
            (b : Bool)
            → is_exception e ≡ b
            → IsRun s 0 count delay
                (longest core)
                (if b then (err (gave_up (count + 1) e), stop_connecting t) else (err e, t))
        by_kind true k =
            IsRun-here s t 0 count delay (longest core) _ refl g
              (gives_up e (count + 1) t (omega arith) refl g.client)
        by_kind false k =
            IsRun-here s t 0 count delay (longest core) _ refl g (interrupted e t k g.client)

    after_attempt-IsRun :
        (s : MercurySession P) (left count delay : ℕ)
        (rest out : Result (Unit {0}) × MercurySession P)
        → Attempted py s out
        → IsRun
            (log_action (waited delay) out.1)
            left
            (count + 1)
            (min (delay * 2) (longest core))
            (longest core)
            rest
        → IsRun s (suc left) count delay (longest core) (after_attempt py world core rest out)
    unfolding publish_connection
    after_attempt-IsRun s left count delay rest _ (published ws t g h) r =
        IsRun-here s t (suc left) count delay (longest core) _ refl g (connects ws t g.client h)
    after_attempt-IsRun s left count delay rest _ (failed e t g) r = by_kind (is_exception e) refl
      where
        by_kind :
            (b : Bool)
            → is_exception e ≡ b
            → IsRun s (suc left) count delay (longest core) (if b then rest else (err e, t))
        by_kind true k = IsRun-retry s t left count delay (longest core) rest g r
        by_kind false k =
            IsRun-here s t (suc left) count delay (longest core) _ refl g
              (interrupted e t k g.client)

    attempt_connections-IsRun :
        (url : String) (left count delay : ℕ) (s : MercurySession P)
        → IsRun s left count delay
            (longest core)
            (attempt_connections py world core url left count delay s)
    unfolding attempt_connections
    attempt_connections-IsRun url zero count delay s =
        exhausted-IsRun s count delay (attempt_connection py world core url s)
          (attempt_connection-Attempted py world core url s)
    attempt_connections-IsRun url (suc left) count delay s =
        after_attempt-IsRun s left count delay _ (attempt_connection py world core url s)
          (attempt_connection-Attempted py world core url s)
          (attempt_connections-IsRun url left (count + 1) (min (delay * 2) (longest core))
            (log_action (waited delay) (attempt_connection py world core url s).1))

    -- `_connect_with_backoff` waits at most as often as retries are allowed: first for the reset time,
    -- and then for its doublings, each capped at the longest backoff. It returns with a published
    -- websocket on which Mercury confirmed the authorization; or it raises what is no `Exception`,
    -- with the client as it was; or, when all retries are used up, it raises an error with the number
    -- of attempts, one more than the retries, and the client only no longer connects.
    pub connect_with_backoff-IsBackedOff :
        (url : String) (s : MercurySession P)
        → IsBackedOff s
            (max_retries core.config s.client)
            0
            core.config.mercury_backoff_time_reset
            core.config.mercury_backoff_time_max
            (connect_with_backoff py world core url s)
    unfolding connect_with_backoff
    connect_with_backoff-IsBackedOff url s = record {
      retries = run.retries;
      within = run.within;
      delays =
          run.delays
          ∙ ap (λ l. waits s.log ++ l)
              (loop_delays-backoffs run.retries core.config.mercury_backoff_time_reset
                (longest core));
      ended = run.ended;
    }
      where
        run :
            IsRun s
              (max_retries core.config s.client)
              0
              core.config.mercury_backoff_time_reset
              (longest core)
              (connect_with_backoff py world core url s)
        run =
            attempt_connections-IsRun url (max_retries core.config s.client) 0
              core.config.mercury_backoff_time_reset s

    -- No wait of `_connect_with_backoff` is longer than a bound of both the reset time and the longest
    -- backoff, and there are at most as many waits as retries are allowed.
    pub connect_with_backoff_bounded :
        (url : String) (s : MercurySession P) (b : ℕ)
        → core.config.mercury_backoff_time_reset ≤ b
        → core.config.mercury_backoff_time_max ≤ b
        → (ws : List ℕ) × (waits (connect_with_backoff py world core url s).1.log
            ≡ waits s.log ++ ws)
          × (all_at_most b ws ≡ true)
          × (length ws ≤ max_retries core.config s.client)
    connect_with_backoff_bounded url s b h k =
        let run = connect_with_backoff-IsBackedOff url s in
        (
          backoffs core.config.mercury_backoff_time_reset (longest core) run.retries,
          run.delays,
          backoffs_bounded b run.retries core.config.mercury_backoff_time_reset (longest core) h k,
          omega (
            arith,
            run.within,
            length-backoffs run.retries core.config.mercury_backoff_time_reset (longest core),
          ),
        )
