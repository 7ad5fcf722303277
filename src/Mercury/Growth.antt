-- ===== src/Mercury/Growth.antt =====
-- How the calls of `MercuryClient` extend its log: what they wait, and which frames they read.
use mathlib.Core.List.{append_assoc, append-nil}
use webex_kms_sdk.Base.{ℕ, ◌≡◌, refl, sym, ap, subst, ◌∙◌, List, [], ◌∷◌, ◌++◌}
use webex_kms_sdk.Exceptions.{Result, ok, err, Action, and_then}
use webex_kms_sdk.Json.{Python}
use webex_kms_sdk.Mercury.Client.{
  Frame, WireAction, dialled, received, sent_text, pinged, closed_socket, cancelled, waited,
  MercurySession, log_action,
}
use webex_kms_sdk.Mercury.Authentication.{confirmed, frame_verdict}

-- The waits between attempts.
abbrev pub waits : List WireAction → List ℕ
waits [] = []
waits (waited n ∷ log) = n ∷ waits log
waits (dialled _ _ ∷ log) = waits log
waits (received _ _ ∷ log) = waits log
waits (sent_text _ _ ∷ log) = waits log
waits (pinged _ _ ∷ log) = waits log
waits (closed_socket _ ∷ log) = waits log
waits (cancelled _ ∷ log) = waits log

pub waits-append : (a b : List WireAction) → waits (a ++ b) ≡ waits a ++ waits b
waits-append [] b = refl
waits-append (waited n ∷ a) b = ap (◌∷◌ n) (waits-append a b)
waits-append (dialled _ _ ∷ a) b = waits-append a b
waits-append (received _ _ ∷ a) b = waits-append a b
waits-append (sent_text _ _ ∷ a) b = waits-append a b
waits-append (pinged _ _ ∷ a) b = waits-append a b
waits-append (closed_socket _ ∷ a) b = waits-append a b
waits-append (cancelled _ ∷ a) b = waits-append a b

-- A frame that confirms the authorization was received on the websocket.
pub data Confirmed (py : Python) (ws : ℕ) : List WireAction → Type 0 where
  here :
      (f : Frame) (log : List WireAction)
      → frame_verdict py f ≡ confirmed
      → Confirmed py ws (received ws f ∷ log)
  there : (a : WireAction) (log : List WireAction) → Confirmed py ws log → Confirmed py ws (a ∷ log)

module _ (py : Python) (ws : ℕ) where
  pub Confirmed-before : (a b : List WireAction) → Confirmed py ws b → Confirmed py ws (a ++ b)
  Confirmed-before [] b h = h
  Confirmed-before (x ∷ a) b h = there x (a ++ b) (Confirmed-before a b h)

  pub Confirmed-after : (a b : List WireAction) → Confirmed py ws a → Confirmed py ws (a ++ b)
  Confirmed-after [] b h = elim h [ ]
  Confirmed-after (_ ∷ _) b (here f log e) = here f (log ++ b) e
  Confirmed-after (_ ∷ _) b (there x log h) = there x (log ++ b) (Confirmed-after log b h)

module _ {P : Type 0} where
  -- From the first state to the second the client stays the same, and the log grows without a wait.
  pub record Grows (s t : MercurySession P) : Type 0 where
    pub client : t.client ≡ s.client
    pub more : List WireAction
    pub log : t.log ≡ s.log ++ more
    pub no_waits : waits more ≡ []

  pub Grows-refl : (s : MercurySession P) → Grows s s
  Grows-refl s = record { client = refl; more = []; log = sym (append-nil s.log); no_waits = refl }

  pub Grows-trans : (s t u : MercurySession P) → Grows s t → Grows t u → Grows s u
  Grows-trans s t u g h = record {
    client = h.client ∙ g.client;
    more = g.more ++ h.more;
    log = h.log ∙ ap (λ l. l ++ h.more) g.log ∙ append_assoc s.log g.more h.more;
    no_waits = waits-append g.more h.more ∙ rw (g.no_waits, h.no_waits) refl;
  }

  pub log_action-Grows :
      (a : WireAction) (s : MercurySession P) → waits (a ∷ []) ≡ [] → Grows s (log_action a s)
  log_action-Grows a s h = record { client = refl; more = a ∷ []; log = refl; no_waits = h }

  pub and_then-Grows :
      {A B : Type 0} (s : MercurySession P) (out : Result A × MercurySession P)
      (f : A → Action (MercurySession P) B)
      → Grows s out.1
      → ((a : A) (t : MercurySession P) → Grows t (f a t).1)
      → Grows s (and_then out f).1
  and_then-Grows s (ok a, t) f g h = Grows-trans s t _ g (h a t)
  and_then-Grows s (err e, t) f g h = g

  pub and_then-Grows_on :
      {A B : Type 0} (s : MercurySession P) (out : Result A × MercurySession P)
      (f : A → Action (MercurySession P) B)
      → Grows s out.1
      → ((a : A) (t : MercurySession P) → Grows s t → Grows s (f a t).1)
      → Grows s (and_then out f).1
  and_then-Grows_on s (ok a, t) f g h = h a t g
  and_then-Grows_on s (err e, t) f g h = g

  pub Confirmed-Grows :
      (py : Python) (ws : ℕ) (s t : MercurySession P)
      → Grows s t
      → Confirmed py ws s.log
      → Confirmed py ws t.log
  Confirmed-Grows py ws s t g h =
      subst (Confirmed py ws) (sym g.log) (Confirmed-after py ws s.log g.more h)
