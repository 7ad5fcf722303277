-- ===== src/Threaded/Leak.antt =====
-- What becomes of the thread of a client that is closed from its own loop.
use webex_kms_sdk.Base.{
  ℕ, String, ◌≡◌, refl, sym, ap, subst, ◌∙◌, Bool, true, false, Option, none, some, ◌||◌, is_some,
  List, [], ◌∷◌,
}
use webex_kms_sdk.Exceptions.{Action}
use webex_kms_sdk.Threaded.{
  AsyncClient, ThreadedSession, is_loop_thread, has_loop, on_facade, on_loop, run_unless, run,
  shut_down, close_unless, close, connect_unless, connect_threaded, get_key_threaded,
  decrypt_text_threaded, set_url_unless, set_custom_url,
}
use webex_kms_sdk.Threaded.Calls.{Call, connects, closes, redirects, fetches, decrypts, perform}

-- The state after calls, in their order.
abbrev pub performed :
    {C : Type 0} → AsyncClient C → List Call → ThreadedSession C → ThreadedSession C
performed webex [] s = s
performed webex (call ∷ calls) s = performed webex calls (perform webex call s).1

-- The thread that is there and alive, of a client that is closed.
pub record IsLeaked {C : Type 0} (s : ThreadedSession C) : Type 0 where
  pub closed : s.facade.closed ≡ true
  pub alive : has_loop s.facade.loop s.facade.thread s.alive ≡ true

module _ {C : Type 0} where
  run-IsLeaked :
      {A : Type 0} (caller : ℕ) (coro : Action C A) (s : ThreadedSession C)
      → IsLeaked s
      → IsLeaked (run caller coro s).1
  unfolding run
  run-IsLeaked caller coro s h =
      by_loop (has_loop s.facade.loop s.facade.thread s.alive)
        (is_loop_thread caller s.facade.loop_thread_id)
    where
      by_client : {A : Type 0} (coro : Action C A) (c : Option C) → IsLeaked (on_loop coro c s).1
      by_client coro none = h
      by_client coro (some c) = record { closed = h.closed; alive = h.alive }

      by_loop : (l own : Bool) → IsLeaked (run_unless l own coro s).1
      by_loop false own = h
      by_loop true true = h
      by_loop true false = by_client coro s.facade.client

  set_custom_url-IsLeaked :
      (url : String) (s : ThreadedSession C) → IsLeaked s → IsLeaked (set_custom_url url s).1
  unfolding set_custom_url
  set_custom_url-IsLeaked url s h =
      by_flags (is_some s.facade.thread || s.facade.connected) s.facade.closed
    where
      by_flags : (b c : Bool) → IsLeaked (set_url_unless b c url s).1
      by_flags true c = h
      by_flags false true = h
      by_flags false false = record { closed = h.closed; alive = h.alive }

  perform-IsLeaked :
      (webex : AsyncClient C) (call : Call) (s : ThreadedSession C)
      → IsLeaked s
      → IsLeaked (perform webex call s).1
  unfolding connect_threaded close get_key_threaded decrypt_text_threaded
  perform-IsLeaked webex (connects caller) s h =
      subst (λ b. IsLeaked (connect_unless webex b s.facade.connected caller s).1) (sym h.closed) h
  perform-IsLeaked webex (closes caller) s h =
      subst (λ b. IsLeaked (close_unless webex b caller s).1) (sym h.closed) h
  perform-IsLeaked webex (redirects url) s h = set_custom_url-IsLeaked url s h
  perform-IsLeaked webex (fetches caller key_uri) s h =
      run-IsLeaked caller (webex.get_key key_uri) s h
  perform-IsLeaked webex (decrypts caller key_uri ciphertext) s h =
      run-IsLeaked caller (webex.decrypt_text key_uri ciphertext) s h

  performed-IsLeaked :
      (webex : AsyncClient C) (calls : List Call) (s : ThreadedSession C)
      → IsLeaked s
      → IsLeaked (performed webex calls s)
  performed-IsLeaked webex [] s h = h
  performed-IsLeaked webex (call ∷ calls) s h =
      performed-IsLeaked webex calls (perform webex call s).1 (perform-IsLeaked webex call s h)

-- After a `close` from the thread of the loop, of a client that is not closed and whose thread is
-- alive, no calls at all stop that thread, whatever they are, how many, from which threads, and
-- whatever the async client does in them: the client stays closed, and its thread alive.
pub close_loop_thread :
    {C : Type 0} (webex : AsyncClient C) (caller : ℕ) (calls : List Call) (s : ThreadedSession C)
    → s.facade.closed ≡ false
    → has_loop s.facade.loop s.facade.thread s.alive ≡ true
    → is_loop_thread caller s.facade.loop_thread_id ≡ true
    → IsLeaked (performed webex (closes caller ∷ calls) s)
unfolding close
close_loop_thread {C} webex caller calls s c l o =
    performed-IsLeaked webex calls (close webex caller s).1 (
      subst IsLeaked
        (sym (
          ap (λ b. (close_unless webex b caller s).1) c
          ∙ ap (λ b. (shut_down webex b (is_loop_thread caller s.facade.loop_thread_id) t).1) l
          ∙ ap (λ b. (shut_down webex true b t).1) o))
        (record { closed = refl; alive = l }))
  where
    t : ThreadedSession C
    t = on_facade (λ c. record c { closed = true }) s
