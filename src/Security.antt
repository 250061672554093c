-- ===== src/Security.antt =====
-- crates/gpumesh-security/src/lib.rs: identities, signatures and the checks of signed payloads.
-- The cryptography, the text codecs and the serialisers are parameters.
pub mod AllowList
pub mod Crypto
pub mod Hello
pub mod Pairing
pub mod Listing
