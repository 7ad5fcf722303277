-- ===== src/Threaded/Life.antt =====
-- The life of a threaded client, as a machine of four phases that its operations implement.
use webex_kms_sdk.Base.{ℕ, ◌≡◌, refl, Bool, true, false, not, ◌&&◌, ◌||◌, Option, none, some}
use webex_kms_sdk.Exceptions.{Result, ok, err, Action}
use webex_kms_sdk.Threaded.{ThreadedSession, is_loop_thread, has_loop}

-- Not started, started and not connected, connected, closed.
pub data Phase : Type 0 where
  fresh running opened ended : Phase

abbrev pub phase_of : Bool → Bool → Option ℕ → Phase
phase_of true connected thread = ended
phase_of false true thread = opened
phase_of false false (some _) = running
phase_of false false none = fresh

abbrev pub phase : {C : Type 0} → ThreadedSession C → Phase
phase s = phase_of s.facade.closed s.facade.connected s.facade.thread

-- What a client sees of an operation: the phase before, whether it returns, and the phase after.
-- `connect` is told whether the loop starts and whether the coroutine on it returns.
pub data Connects (starts connects : Bool) : Phase → Bool → Phase → Type 0 where
  refused : Connects starts connects ended false ended
  already : Connects starts connects opened true opened
  opens_fresh : starts ≡ true → connects ≡ true → Connects starts connects fresh true opened
  opens_running : connects ≡ true → Connects starts connects running true opened
  not_started : starts ≡ false → Connects starts connects fresh false fresh
  fails_fresh : starts ≡ true → connects ≡ false → Connects starts connects fresh false ended
  fails_running : connects ≡ false → Connects starts connects running false ended

abbrev pub is_ended : Phase → Bool
is_ended ended = true
is_ended _ = false

abbrev pub is_initial : Phase → Bool
is_initial fresh = true
is_initial _ = false

-- `close` ends the life, also where it raises, and does nothing a second time. It is told whether
-- the loop is shut down.
pub data Closes (shuts : Bool) : Phase → Bool → Phase → Type 0 where
  again : Closes shuts ended true ended
  ends : (p : Phase) → is_ended p ≡ false → Closes shuts p shuts ended

-- The URL can be set before the first start, and then only.
pub data Redirects : Phase → Bool → Phase → Type 0 where
  accepted : Redirects fresh true fresh
  rejected : (p : Phase) → is_initial p ≡ false → Redirects p false p

-- A call for a key or a text never changes the phase. It is told whether the coroutine returns.
pub data Stays (gives : Bool) : Phase → Bool → Phase → Type 0 where
  stays : (p : Phase) → Stays gives p gives p

abbrev pub returns : {A : Type 0} → Result A → Bool
returns (ok _) = true
returns (err _) = false

-- The operation is a move of the machine.
abbrev pub IsMove :
    {C A : Type 0}
    → (Phase → Bool → Phase → Type 0)
    → ThreadedSession C
    → Result A × ThreadedSession C
    → Type 0
IsMove Move s out = Move (phase s) (returns out.0) (phase out.1)

-- Whether a coroutine that a thread runs on the client returns: there is a loop whose thread is
-- alive, the caller is another thread, and the client does what is asked.
abbrev pub client_returns : {C A : Type 0} → Action C A → Option C → Bool
client_returns coro none = false
client_returns coro (some c) = returns (coro c).0

abbrev pub gives : {C A : Type 0} → ℕ → Action C A → ThreadedSession C → Bool
gives caller coro s =
    has_loop s.facade.loop s.facade.thread s.alive
    && (not (is_loop_thread caller s.facade.loop_thread_id) && client_returns coro s.facade.client)

-- Whether a shutdown by a thread returns: there is no loop, or the caller is another thread than
-- its own and the client, if there is one, is closed.
abbrev pub client_closes : {C : Type 0} → Action C (Unit {0}) → Option C → Bool
client_closes aclose none = true
client_closes aclose (some c) = returns (aclose c).0

abbrev pub shuts : {C : Type 0} → ℕ → Action C (Unit {0}) → ThreadedSession C → Bool
shuts caller aclose s =
    not (has_loop s.facade.loop s.facade.thread s.alive)
    || (not (is_loop_thread caller s.facade.loop_thread_id) && client_closes aclose s.facade.client)

module _ {C : Type 0} where
  -- The flags and the thread stay.
  pub record Keeps (s t : ThreadedSession C) : Type 0 where
    pub closed : t.facade.closed ≡ s.facade.closed
    pub connected : t.facade.connected ≡ s.facade.connected
    pub thread : t.facade.thread ≡ s.facade.thread

  pub Keeps-phase : (s t : ThreadedSession C) → Keeps s t → phase t ≡ phase s
  Keeps-phase s t k = rw (k.closed, k.connected, k.thread)

  pub Keeps-refl : (s : ThreadedSession C) → Keeps s s
  Keeps-refl s = record { closed = refl; connected = refl; thread = refl }
