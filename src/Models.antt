-- ===== src/Models.antt =====
-- The data classes of `src/webex_kms_sdk/models.py` and their `from_dict`.
pub mod Jwk
pub mod KmsMessage
pub mod Device
pub mod Event
pub mod Activity
