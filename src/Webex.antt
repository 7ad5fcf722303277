-- ===== src/Webex.antt =====
-- `WebexClient` of `src/webex_kms_sdk/core.py`: the clients that it makes when they are first asked
-- for, and shares. The provider of the Mercury client is the shared device client.
use webex_kms_sdk.Base.{ℕ, String, Option, none, some, []}
use webex_kms_sdk.Exceptions.{Result, ok, Action, bind_result}
use webex_kms_sdk.Json.{Python}
use webex_kms_sdk.Config.{Config, default_config}
use webex_kms_sdk.Core.{CoreHttpClient}
use webex_kms_sdk.Core.Paths.{new_core}
use webex_kms_sdk.Encryption.State.{EncryptionClient, initial_client}
use webex_kms_sdk.Device.{DeviceClient, initial_device, DeviceSession, DeviceWorld}
use webex_kms_sdk.Mercury.{Registry}
use webex_kms_sdk.Mercury.Client.{
  MercurySession, MercuryWorld, MercuryClient, initial_mercury, set_device_provider,
}
use webex_kms_sdk.Mercury.Connection.{disconnect}
use webex_kms_sdk.Mercury.Lost.{device_provider}
use webex_kms_sdk.Conversation.Dispatch.{wire_mercury}

-- The registry of the conversation client stands for that client.
pub record WebexClient : Type 0 where
  pub config : Config
  pub core : CoreHttpClient
  pub device : Option DeviceClient
  pub mercury : Option (MercuryClient DeviceSession)
  pub encryption : Option EncryptionClient
  pub conversation : Option Registry

-- `config or Config()`
abbrev pub or_default : Option Config → Config
or_default none = default_config
or_default (some config) = config

-- `WebexClient.__init__`
unfoldable pub new_webex : String → Option Config → Result WebexClient
unfolding new_core
new_webex access_token config = bind_result (new_core access_token (or_default config)) λ core.
    ok (record {
      config = or_default config;
      core = core;
      device = none;
      mercury = none;
      encryption = none;
      conversation = none;
    })

abbrev pub made_device : Option DeviceClient → WebexClient → DeviceClient × WebexClient
made_device (some d) c = (d, c)
made_device none c = (initial_device, record c { device = some initial_device })

-- `WebexClient.device`
unfoldable pub device_of : WebexClient → DeviceClient × WebexClient
device_of c = made_device c.device c

abbrev pub made_encryption : Option EncryptionClient → WebexClient → EncryptionClient × WebexClient
made_encryption (some e) c = (e, c)
made_encryption none c = (initial_client, record c { encryption = some initial_client })

-- `WebexClient.encryption`
unfoldable pub encryption_of : WebexClient → EncryptionClient × WebexClient
encryption_of c = made_encryption c.encryption c

module _ (py : Python) (dworld : DeviceWorld) where
  -- A new Mercury client, and the device client that it is given.
  abbrev pub made_mercury :
      Option (MercuryClient DeviceSession) → WebexClient → MercuryClient DeviceSession × WebexClient
  made_mercury (some m) c = (m, c)
  made_mercury none c =
      let m = set_device_provider (device_provider py dworld c.core) initial_mercury in
      (m, record (device_of c).1 { mercury = some m })

  -- `WebexClient.mercury`
  unfoldable pub mercury_of : WebexClient → MercuryClient DeviceSession × WebexClient
  unfolding device_of
  mercury_of c = made_mercury c.mercury c

  -- The handlers of a new conversation client are registered at the Mercury client.
  abbrev pub made_conversation : ℕ → ℕ → Option Registry → WebexClient → Registry × WebexClient
  made_conversation conversation_handler kms_handler (some r) c = (r, c)
  made_conversation conversation_handler kms_handler none c =
      let (m, d) = mercury_of c in
      let e = (encryption_of d).1 in
      (
        [],
        record e {
          mercury =
              some
                (record m { handlers = wire_mercury conversation_handler kms_handler m.handlers });
          conversation = some [];
        },
      )

  -- `WebexClient.conversation`, with the two handlers that a new one registers.
  unfoldable pub conversation_of : ℕ → ℕ → WebexClient → Registry × WebexClient
  unfolding mercury_of encryption_of
  conversation_of conversation_handler kms_handler c =
      made_conversation conversation_handler kms_handler c.conversation c

module _ (world : MercuryWorld) where
  abbrev pub close_mercury :
      Option (MercuryClient DeviceSession)
      → Action (MercurySession DeviceSession × WebexClient) (Unit {0})
  close_mercury none (s, c) = (ok tt, (s, c))
  close_mercury (some m) (s, c) =
      let (r, t) = disconnect world (record s { client = m }) in
      (r, (t, record c { mercury = some t.client }))

  -- `WebexClient.aclose`, up to the end of the HTTP session.
  unfoldable pub aclose : Action (MercurySession DeviceSession × WebexClient) (Unit {0})
  aclose (s, c) = close_mercury c.mercury (s, c)
