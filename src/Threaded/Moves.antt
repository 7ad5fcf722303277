-- ===== src/Threaded/Moves.antt =====
-- The operations of a threaded client, but `connect`, are moves of its machine.
use webex_kms_sdk.Base.{
  ℕ, String, ◌≡◌, refl, sym, ap, subst, ◌∙◌, Bool, true, false, not, ◌&&◌, Option, none, some, ◌||◌,
  is_some, nat_eq,
}
use webex_kms_sdk.Exceptions.{Result, ok, err, Action}
use webex_kms_sdk.Threaded.{
  AsyncClient, ThreadedSession, is_loop_thread, has_loop, on_facade, run, close_client, joined,
  shut_down, close_unless, close, set_url_unless, set_custom_url,
}
use webex_kms_sdk.Threaded.Life.{
  ended, phase_of, phase, is_ended, is_initial, Closes, again, ends, Redirects, accepted, rejected,
  Stays, stays, returns, IsMove, Keeps-phase, gives, client_closes, shuts,
}
use webex_kms_sdk.Threaded.Running.{future_result-IsFaithful, run-Keeps, run-gives}

module _ {C : Type 0} where
  module _ (webex : AsyncClient C) where
    joined-closed :
        (out : Result (Unit {0}) × ThreadedSession C)
        → out.1.facade.closed ≡ true
        → (joined webex out).1.facade.closed ≡ true
    joined-closed (ok _, s) h = h
    joined-closed (err e, s) h = h

    close_client-closed :
        (c : Option C) (s : ThreadedSession C)
        → s.facade.closed ≡ true
        → (close_client webex c s).1.facade.closed ≡ true
    close_client-closed none s h = h
    close_client-closed (some c) s h = h

    shut_down-closed :
        (l own : Bool) (s : ThreadedSession C)
        → s.facade.closed ≡ true
        → (shut_down webex l own s).1.facade.closed ≡ true
    shut_down-closed false own s h = h
    shut_down-closed true true s h = h
    shut_down-closed true false s h =
        joined-closed (close_client webex s.facade.client s)
          (close_client-closed s.facade.client s h)

    pub close-closed :
        (caller : ℕ) (s : ThreadedSession C) → (close webex caller s).1.facade.closed ≡ true
    unfolding close
    close-closed caller s = by_flag s.facade.closed refl
      where
        by_flag :
            (b : Bool)
            → s.facade.closed ≡ b
            → (close_unless webex b caller s).1.facade.closed ≡ true
        by_flag true e = e
        by_flag false e = shut_down-closed _ _ _ refl

    pub phase_closed : (s : ThreadedSession C) → s.facade.closed ≡ true → phase s ≡ ended
    phase_closed s e = ap (λ b. phase_of b s.facade.connected s.facade.thread) e

    phase-open : (s : ThreadedSession C) → s.facade.closed ≡ false → is_ended (phase s) ≡ false
    phase-open s e =
        ap (λ b. is_ended (phase_of b s.facade.connected s.facade.thread)) e
        ∙ by_rest s.facade.connected s.facade.thread
      where
        by_rest : (b : Bool) (t : Option ℕ) → is_ended (phase_of false b t) ≡ false
        by_rest true t = refl
        by_rest false (some t) = refl
        by_rest false none = refl

    joined-returns :
        (out : Result (Unit {0}) × ThreadedSession C) → returns (joined webex out).0 ≡ returns out.0
    joined-returns (ok _, s) = refl
    joined-returns (err e, s) = refl

    close_client-closes :
        (c : Option C) (s : ThreadedSession C)
        → returns (close_client webex c s).0 ≡ client_closes webex.aclose c
    close_client-closes none s = refl
    close_client-closes (some c) s = (future_result-IsFaithful (webex.aclose c).0).0

    shut_down-shuts :
        (l own : Bool) (s : ThreadedSession C)
        → returns (shut_down webex l own s).0
          ≡ (not l || (not own && client_closes webex.aclose s.facade.client))
    shut_down-shuts false own s = refl
    shut_down-shuts true true s = refl
    shut_down-shuts true false s =
        joined-returns (close_client webex s.facade.client s)
        ∙ close_client-closes s.facade.client s

    pub close-IsMove :
        (caller : ℕ) (s : ThreadedSession C)
        → IsMove (Closes (shuts caller webex.aclose s)) s (close webex caller s)
    unfolding close
    close-IsMove caller s = by_flag s.facade.closed refl
      where
        closing : ThreadedSession C
        closing = on_facade (λ c. record c { closed = true }) s

        down : Result (Unit {0}) × ThreadedSession C
        down = close_unless webex false caller s

        down-closed : down.1.facade.closed ≡ true
        down-closed =
            shut_down-closed (has_loop s.facade.loop s.facade.thread s.alive)
              (is_loop_thread caller s.facade.loop_thread_id) closing refl

        down-shuts : returns down.0 ≡ shuts caller webex.aclose s
        down-shuts =
            shut_down-shuts (has_loop s.facade.loop s.facade.thread s.alive)
              (is_loop_thread caller s.facade.loop_thread_id) closing

        by_flag :
            (b : Bool)
            → s.facade.closed ≡ b
            → IsMove (Closes (shuts caller webex.aclose s)) s (close_unless webex b caller s)
        by_flag true e =
            subst (λ p. Closes (shuts caller webex.aclose s) p true p) (sym (phase_closed s e))
              again
        by_flag false e =
            subst (Closes (shuts caller webex.aclose s) (phase s) (returns down.0))
              (sym (phase_closed down.1 down-closed))
              (subst (λ b. Closes (shuts caller webex.aclose s) (phase s) b ended) (sym down-shuts)
                (ends (phase s) (phase-open s e)))

  pub set_custom_url-IsMove :
      (url : String) (s : ThreadedSession C) → IsMove Redirects s (set_custom_url url s)
  unfolding set_custom_url
  set_custom_url-IsMove url s =
      by_values s.facade.thread s.facade.connected s.facade.closed refl refl refl
    where
      shown :
          (o : Option ℕ) (k b : Bool)
          → s.facade.thread ≡ o
          → s.facade.connected ≡ k
          → s.facade.closed ≡ b
          → is_initial (phase_of b k o) ≡ false
          → is_initial (phase s) ≡ false
      shown o k b d e f h = rw (d, e, f) h

      late : (b : Bool) → is_initial (phase_of b true none) ≡ false
      late true = refl
      late false = refl

      started_phase : (k b : Bool) (t : ℕ) → is_initial (phase_of b k (some t)) ≡ false
      started_phase true true t = refl
      started_phase true false t = refl
      started_phase false true t = refl
      started_phase false false t = refl

      by_values :
          (o : Option ℕ) (k b : Bool)
          → s.facade.thread ≡ o
          → s.facade.connected ≡ k
          → s.facade.closed ≡ b
          → IsMove Redirects s (set_url_unless (is_some o || k) b url s)
      by_values (some t) k b d e f =
          rejected (phase s) (shown (some t) k b d e f (started_phase k b t))
      by_values none true b d e f = rejected (phase s) (shown none true b d e f (late b))
      by_values none false true d e f = rejected (phase s) (shown none false true d e f refl)
      by_values none false false d e f =
          subst (λ p. Redirects p true p)
            (sym (
              ap (λ b. phase_of b s.facade.connected s.facade.thread) f
              ∙ ap (λ b. phase_of false b s.facade.thread) e
              ∙ ap (phase_of false false) d))
            accepted

  pub run-IsMove :
      {A : Type 0} (caller : ℕ) (coro : Action C A) (s : ThreadedSession C)
      → IsMove (Stays (gives caller coro s)) s (run caller coro s)
  run-IsMove caller coro s =
      subst (Stays (gives caller coro s) (phase s) (returns (run caller coro s).0))
        (sym (Keeps-phase s (run caller coro s).1 (run-Keeps caller coro s)))
        (subst (λ b. Stays (gives caller coro s) (phase s) b (phase s))
          (sym (run-gives caller coro s).0) (stays (phase s)))
