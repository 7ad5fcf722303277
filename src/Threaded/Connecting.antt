-- ===== src/Threaded/Connecting.antt =====
-- `connect` of a threaded client is a move of its machine.
use webex_kms_sdk.Base.{
  ℕ, ◌≡◌, refl, sym, ap, subst, ◌∙◌, Bool, true, false, not, ◌&&◌, Option, none, some, List, [],
  ◌∷◌, ◌++◌, ◌==◌, ==_refl, nat_eq, contains, contains-cons, if◌then◌else◌,
}
use webex_kms_sdk.Exceptions.{Result, ok, err, and_then}
use webex_kms_sdk.Threaded.{
  AsyncClient, ThreadedSession, run, created, started, start_unless, ensure_thread_started, close,
  connect_ended, connect_started, connect_unless, connect_threaded,
}
use webex_kms_sdk.Threaded.Life.{
  Phase, fresh, running, opened, ended, phase_of, phase, Connects, refused, already, opens_fresh,
  opens_running, not_started, fails_fresh, fails_running, returns, IsMove, gives,
}
use webex_kms_sdk.Threaded.Moves.{close-closed, phase_closed}
use webex_kms_sdk.Threaded.Running.{is_live, run-Keeps, run-gives}

module _ {C : Type 0} (webex : AsyncClient C) where
  -- Whether the coroutine of `connect` returns on the client that is created for a new thread.
  abbrev pub new_gives : ℕ → ℕ → Result C → Bool
  new_gives caller thread (err e) = false
  new_gives caller thread (ok d) = not (caller == thread) && returns (webex.connect d).0

  -- The same on the thread that there is, or on a new one.
  abbrev pub connect_gives : ℕ → Option ℕ → ThreadedSession C → Bool
  connect_gives caller (some _) s = gives caller webex.connect s
  connect_gives caller none s = new_gives caller s.next_thread (created webex s.facade)

  contains_last : (t : ℕ) (ts : List ℕ) → contains (ts ++ (t ∷ [])) t ≡ true
  contains_last t [] = rw (==_refl t)
  contains_last t (x ∷ ts) = contains-cons t x (ts ++ (t ∷ [])) (contains_last t ts)

  -- A connect coroutine that has ended opens, or closes the client.
  connect_ended-Connects :
      (starts connects : Bool) (caller : ℕ) (p : Phase)
      (out : Result (Unit {0}) × ThreadedSession C)
      → out.1.facade.closed ≡ false
      → is_live out.0 ≡ true
      → (returns out.0 ≡ true → Connects starts connects p true opened)
      → (returns out.0 ≡ false → Connects starts connects p false ended)
      → Connects starts connects p
          (returns (connect_ended webex caller out).0)
          (phase (connect_ended webex caller out).1)
  connect_ended-Connects starts connects caller p (ok _, s) c l o f =
      subst (Connects starts connects p true) (sym (ap (λ b. phase_of b true s.facade.thread) c))
        (o refl)
  connect_ended-Connects starts connects caller p (err e, s) c l o f =
      subst (λ b. Connects starts connects p (returns (after b).0) (phase (after b).1)) (sym l)
        (by_close (close webex caller s) (close-closed webex caller s))
    where
      after : Bool → Result (Unit {0}) × ThreadedSession C
      after b = if b then and_then (close webex caller s) (λ _ t. (err e, t)) else (err e, s)

      by_close :
          (out : Result (Unit {0}) × ThreadedSession C)
          → out.1.facade.closed ≡ true
          → Connects starts connects p
              (returns (and_then {B = Unit {0}} out (λ _ t. (err e, t))).0)
              (phase (and_then {B = Unit {0}} out (λ _ t. (err e, t))).1)
      by_close (ok _, t) h =
          subst (Connects starts connects p false) (sym (phase_closed webex t h)) (f refl)
      by_close (err x, t) h =
          subst (Connects starts connects p false) (sym (phase_closed webex t h)) (f refl)

  connect_running :
      (starts connects : Bool) (caller : ℕ) (p : Phase) (s : ThreadedSession C)
      → s.facade.closed ≡ false
      → gives caller webex.connect s ≡ connects
      → (connects ≡ true → Connects starts connects p true opened)
      → (connects ≡ false → Connects starts connects p false ended)
      → Connects starts connects p
          (returns (connect_started webex caller (ok tt, s)).0)
          (phase (connect_started webex caller (ok tt, s)).1)
  connect_running starts connects caller p s c g o f =
      let kept = run-Keeps caller webex.connect s in
      let facts = run-gives caller webex.connect s in
      connect_ended-Connects starts connects caller p (run caller webex.connect s) (kept.closed ∙ c)
        facts.1 (λ h. o (sym g ∙ sym facts.0 ∙ h)) (λ h. f (sym g ∙ sym facts.0 ∙ h))

  connect_new :
      (caller : ℕ) (s : ThreadedSession C) (r : Result C)
      → s.facade.closed ≡ false
      → s.facade.connected ≡ false
      → Connects
          (returns r)
          (new_gives caller s.next_thread r)
          fresh
          (returns (connect_started webex caller (started webex r s)).0)
          (phase (connect_started webex caller (started webex r s)).1)
  connect_new caller s (err e) c k =
      subst (Connects false false fresh false) (sym still) (not_started refl)
    where
      still : phase_of s.facade.closed s.facade.connected none ≡ fresh
      still = ap (λ b. phase_of b s.facade.connected none) c ∙ ap (λ b. phase_of false b none) k
  connect_new caller s (ok d) c k =
      connect_running true (new_gives caller s.next_thread (ok d)) caller fresh
        (started webex (ok d) s).1 c
        (ap (λ b. b && (not (caller == s.next_thread) && returns (webex.connect d).0))
          (contains_last s.next_thread s.alive))
        (opens_fresh refl) (fails_fresh refl)

  pub connect-IsMove :
      (caller : ℕ) (s : ThreadedSession C)
      → IsMove
          (Connects (returns (created webex s.facade)) (connect_gives caller s.facade.thread s))
          s
          (connect_threaded webex caller s)
  unfolding connect_threaded ensure_thread_started
  connect-IsMove caller s = by_flags s.facade.closed s.facade.connected refl refl
    where
      starts : Bool
      starts = returns (created webex s.facade)

      by_thread :
          (o : Option ℕ)
          → s.facade.thread ≡ o
          → s.facade.closed ≡ false
          → s.facade.connected ≡ false
          → Connects starts
              (connect_gives caller o s)
              (phase_of false false o)
              (returns (connect_started webex caller (start_unless webex o s)).0)
              (phase (connect_started webex caller (start_unless webex o s)).1)
      by_thread (some t) h c k =
          connect_running starts (gives caller webex.connect s) caller running s c refl
            opens_running fails_running
      by_thread none h c k = connect_new caller s (created webex s.facade) c k

      connects : Bool
      connects = connect_gives caller s.facade.thread s

      by_flags :
          (b k : Bool)
          → s.facade.closed ≡ b
          → s.facade.connected ≡ k
          → IsMove (Connects starts connects) s (connect_unless webex b k caller s)
      by_flags true k e f =
          subst (λ p. Connects starts connects p false p) (sym (phase_closed webex s e)) refused
      by_flags false true e f =
          subst (λ p. Connects starts connects p true p)
            (sym (
              ap (λ b. phase_of b s.facade.connected s.facade.thread) e
              ∙ ap (λ b. phase_of false b s.facade.thread) f))
            already
      by_flags false false e f =
          subst
            (λ p.
              Connects starts connects p (returns (connect_unless webex false false caller s).0)
                (phase (connect_unless webex false false caller s).1))
            (sym (
              ap (λ b. phase_of b s.facade.connected s.facade.thread) e
              ∙ ap (λ b. phase_of false b s.facade.thread) f))
            (by_thread s.facade.thread refl e f)
