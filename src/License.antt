-- ===== src/License.antt =====
-- Package license: offline keys, and what an activation allows (license/license.go).
pub mod Words
pub mod Tier
pub mod Key
pub mod RoundTrip
pub mod Activation
pub mod Floor
pub mod Trimming
