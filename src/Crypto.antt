-- ===== src/Crypto.antt =====
-- SMB3 message protection: internal/smb3.
pub mod Transform
pub mod Sign
pub mod Cmac
pub mod Ccm
pub mod Ciphers
pub mod Kdf
pub mod Rc4
