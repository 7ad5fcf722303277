-- ===== src/Encryption.antt =====
-- `src/webex_kms_sdk/encryption.py`: KMS key retrieval, Mercury responses, content decryption.
pub mod Uri
pub mod Base64
pub mod Crypto
pub mod State
pub mod Keys
pub mod Response
pub mod Identity
pub mod Messages
pub mod Session
pub mod Kms
pub mod Retrieval
pub mod Sharing
