-- ===== src/Crypto.antt =====
-- pkg/crypto: public keys, signatures and the stored key pair.
pub mod Keys
pub mod Signer
pub mod Verifying
pub mod KeyManager
