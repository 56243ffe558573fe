-- ===== src/Tests.antt =====
-- Runs of the model on small inputs.
mod Data
mod Merging
mod Versions
mod Names
mod Running
mod Saving
mod Secrets
mod Services
mod Resolving
mod Plugins
mod Coffins
mod Vault
mod Sharing
mod Stores
mod Audits
mod Imports
mod Items
