-- ===== src/Threaded/Calls.antt =====
-- The calls of a threaded client, and the machine of phases that they implement.
use webex_kms_sdk.Base.{ℕ, String, Bool}
use webex_kms_sdk.Exceptions.{Result}
use webex_kms_sdk.Threaded.{
  created, AsyncClient, ThreadedSession, close, connect_threaded, get_key_threaded,
  decrypt_text_threaded, set_custom_url,
}
use webex_kms_sdk.Threaded.Life.{
  Phase, phase, Connects, Closes, Redirects, Stays, returns, gives, shuts,
}
use webex_kms_sdk.Threaded.Connecting.{connect_gives, connect-IsMove}
use webex_kms_sdk.Threaded.Moves.{close-IsMove, set_custom_url-IsMove, run-IsMove}

-- The operations, each with the thread that calls it.
pub data Call : Type 0 where
  connects closes : ℕ → Call
  redirects : String → Call
  fetches : ℕ → String → Call
  decrypts : ℕ → String → String → Call

abbrev pub outcome : {C A : Type 0} → Result A × ThreadedSession C → Bool × ThreadedSession C
outcome (r, s) = (returns r, s)

abbrev pub perform :
    {C : Type 0} → AsyncClient C → Call → ThreadedSession C → Bool × ThreadedSession C
perform webex (connects caller) s = outcome (connect_threaded webex caller s)
perform webex (closes caller) s = outcome (close webex caller s)
perform webex (redirects url) s = outcome (set_custom_url url s)
perform webex (fetches caller key_uri) s = outcome (get_key_threaded webex caller key_uri s)
perform webex (decrypts caller key_uri ciphertext) s =
    outcome (decrypt_text_threaded webex caller key_uri ciphertext s)

-- The move of the machine that each operation is, by what the async client does in it.
abbrev pub Specified :
    {C : Type 0} → AsyncClient C → Call → ThreadedSession C → Phase → Bool → Phase → Type 0
Specified webex (connects caller) s =
    Connects (returns (created webex s.facade)) (connect_gives webex caller s.facade.thread s)
Specified webex (closes caller) s = Closes (shuts caller webex.aclose s)
Specified webex (redirects _) s = Redirects
Specified webex (fetches caller key_uri) s = Stays (gives caller (webex.get_key key_uri) s)
Specified webex (decrypts caller key_uri ciphertext) s =
    Stays (gives caller (webex.decrypt_text key_uri ciphertext) s)

-- Each operation of a threaded client, whatever the async client does and whichever thread calls,
-- is a move of the machine of phases, which what the async client does decides. A `connect` of what
-- is fresh leaves it fresh and raises where the client cannot be created. Otherwise a `connect` of
-- what is fresh or running opens it and returns where the coroutine, run for another thread than
-- the loop's, connects, and raises and ends the life where it does not, also where it is cancelled.
-- A `connect` returns at once on what is open, and raises on what has ended. A `close` ends the life,
-- and returns where there is no loop or the coroutine, run for another thread than the loop's,
-- closes the client, and raises otherwise; a second one returns. The URL is accepted of what is
-- fresh, and of nothing else. A call for a key or a text stays in the phase, and returns where there
-- is a loop and the coroutine, run for another thread than the loop's, returns.
pub perform-Specified :
    {C : Type 0} (webex : AsyncClient C) (call : Call) (s : ThreadedSession C)
    → Specified webex call s (phase s) (perform webex call s).0 (phase (perform webex call s).1)
unfolding get_key_threaded decrypt_text_threaded
perform-Specified webex (connects caller) s = connect-IsMove webex caller s
perform-Specified webex (closes caller) s = close-IsMove webex caller s
perform-Specified webex (redirects url) s = set_custom_url-IsMove url s
perform-Specified webex (fetches caller key_uri) s = run-IsMove caller (webex.get_key key_uri) s
perform-Specified webex (decrypts caller key_uri ciphertext) s =
    run-IsMove caller (webex.decrypt_text key_uri ciphertext) s
