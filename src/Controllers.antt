-- ===== src/Controllers.antt =====
-- packages/controllers: the admin, the hooks and the claims that other contracts embed.
pub mod Admin
pub mod Hooks
pub mod Claims
mod Tests
