-- ===== src/Exts.antt =====
-- exts/: the extensions that verify the requests of a provider.
pub mod Hmac
pub mod Github
pub mod Kit
pub mod Teams
