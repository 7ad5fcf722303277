-- ===== src/Http.antt =====
-- The HTTP library as the program sees it: the replies that the network will give, in order, and
-- the log of what the program did. Nothing is assumed of the replies.
use webex_kms_sdk.Base.{ℕ, String, Option, List, [], ◌∷◌, ◌++◌}
use webex_kms_sdk.Dict.{Dict}
use webex_kms_sdk.Number.{Float, Bytes}
use webex_kms_sdk.Exceptions.{Result, err, foreign, Action}
use webex_kms_sdk.Json.{Json}

pub record Request : Type 0 where
  pub method : String
  pub url : String
  pub params : Dict String String
  pub body : Option Json
  pub headers : Dict String String

-- `json` is what `response.json()` returns or raises.
pub record Response : Type 0 where
  pub status_code : ℕ
  pub reason_phrase : String
  pub headers : Dict String String
  pub text : String
  pub content : Bytes
  pub json : Result Json

pub data Traffic : Type 0 where
  sent : Request → Traffic
  closed : Response → Traffic
  slept : Float → Traffic

pub record Net : Type 0 where
  pub replies : List (Result Response)
  pub log : List Traffic

abbrev pub record_traffic : Traffic → Net → Net
record_traffic t w = record w { log = w.log ++ (t ∷ []) }

-- The reply to one request. Where none is left the connection fails.
abbrev pub next_reply : List (Result Response) → Result Response
next_reply [] = err (foreign "All connection attempts failed")
next_reply (r ∷ _) = r

abbrev pub later_replies : List (Result Response) → List (Result Response)
later_replies [] = []
later_replies (_ ∷ rs) = rs

-- `await self.http.request(…)`
unfoldable pub send : Request → Action Net Response
send q w = (
  next_reply w.replies,
  record { replies = later_replies w.replies; log = w.log ++ (sent q ∷ []) },
)
