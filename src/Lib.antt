-- ===== src/Lib.antt =====
-- A model of the Webex KMS SDK (`src/webex_kms_sdk`), a Python library that retrieves keys from the
-- Webex KMS and decrypts message content with them.
--
-- The parts and their files. `models.py` reads the JSON of the services into dataclasses (Models).
-- `core.py` sends HTTP requests with headers and retries (Core), redacts what it logs (Core/Log) and
-- makes the shared clients (Webex); `errors.py` maps responses to exceptions (Exceptions, Errors),
-- `config.py` holds the settings (Config). `encryption.py` is the core of the library, and has a
-- module per part: KMS URIs and clusters (Encryption/Uri), base64url (Base64), the wrappers around
-- the cryptographic libraries (Crypto), key conversions (Keys), identifiers and error classification
-- (Identity), the state of `EncryptionClient` (State), the answers of the KMS (Response),
-- `process_kms_messages`, to which the Mercury listener gives what arrives (Messages), a running
-- client with its network (Session), the requests to the KMS and the ECDH context (Kms), `get_key`
-- with the decryption of texts (Retrieval), and several callers of `get_key` at once (Sharing).
-- Base, Dict, Text, Number and Json are what the modules share: Python's dicts, texts, numbers and
-- JSON values. `device.py` registers a device with the service (Device). `mercury.py` keeps the
-- handlers of events and schedules their calls (Mercury); its connection has the state
-- (Mercury/Client), one attempt with its authentication (Authentication), `connect` with its
-- backoff, `disconnect` and the reconnection (Connection), and the background loops (Loops).
-- `conversation.py` reads activities, KMS messages and message content from events (Conversation)
-- and dispatches activities to handlers (Conversation/Dispatch). `threaded.py` runs the async client
-- on the loop of a background thread (Threaded).
--
-- State. Each client is a record. A future, a task, a websocket, a thread and a handler are numbers,
-- and the state maps a number to what it stands for. A call that may raise is a function from a
-- state to a result and a state, and what was written before a raise stays written. The HTTP layer
-- is the list of the replies that will come and a log of what was done. A websocket is the list of
-- the frames that it will receive, which a parameter gives for each dial; where that list ends the
-- caller waits, which the authentication does up to its timeout.
--
-- Interfaces. The Mercury client calls its device provider through a record of operations
-- (`DeviceProvider`), which the device client fills (Mercury/Lost); the threaded client calls the
-- async client through another (`AsyncClient`).
--
-- Concurrency. One retrieval runs, and the listener beside it: batches of KMS messages arrive at
-- each request and at each awaited future, which batches is a parameter. The code between two
-- awaits is one step, so the locks need no model. For one caller of `get_key` a task that another
-- caller started is a parameter, `join`; Encryption/Sharing takes the callers and the tasks as steps
-- in any order, and there the outcome of a retrieval is a parameter. The calls of the device client
-- run one at a time; so do the calls and the background tasks of the Mercury client, each of which
-- is one step, and the calls of the threaded client.
--
-- Parameters. Python's own conversions (`Python`), `str.lower`, jwcrypto and cryptography
-- (`Crypto`), the clock, random bytes and generated keys (`World`), the websockets and the URL
-- functions (`MercuryWorld`), what a callback of a registration raises (`DeviceWorld`), and what a
-- handler of an activity does. Nothing is assumed of them.
--
-- Bounds. The loops are structural recursion, on a list or on the attempts left. `bit_length` and
-- `decimal` run on fuel n + 1, more than the halvings or divisions of n. Floats are whole multiples
-- of 2^-1074, and sums, differences and products of times are exact. The sizes of JSON values and
-- the recursion depth are not bounded.
--
-- Not modelled: calls of one device, Mercury or threaded client that overlap, except those of
-- `get_key`; the cancellation of tasks when a background loop stops; the log itself; and the
-- examples and tests.
pub mod Base
pub mod Dict
pub mod Text
pub mod Number
pub mod Exceptions
pub mod Json
pub mod Models
pub mod Config
pub mod Http
pub mod Core
pub mod Errors
pub mod Encryption
pub mod Device
pub mod Mercury
pub mod Conversation
pub mod Webex
pub mod Threaded
mod Tests
