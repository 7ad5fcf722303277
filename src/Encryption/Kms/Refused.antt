-- ===== src/Encryption/Kms/Refused.antt =====
-- What a request leads to that the KMS refuses.
use webex_kms_sdk.Encryption.Crypto.{Crypto}
