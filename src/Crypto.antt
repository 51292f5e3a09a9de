-- ===== src/Crypto.antt =====
-- crypto.go: the encodings that it uses, the registry of ciphers and the default cipher.
pub mod Base64
pub mod Json
pub mod Registry
pub mod Aes
