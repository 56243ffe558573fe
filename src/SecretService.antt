-- ===== src/SecretService.antt =====
-- pkg/secretservice: the provider of the freedesktop Secret Service.
pub mod Index
pub mod Store
pub mod Item
pub mod Policy
