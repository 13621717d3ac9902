-- ===== src/Handler.antt =====
-- internal/handler: the handlers, as functions of a request, fresh random values and the clock.
pub mod Env
pub mod Settings
pub mod Authorize
pub mod Grant
pub mod Bearer
pub mod CodeFlow
pub mod Login
pub mod Renew
pub mod Cas
pub mod Departments
pub mod PasswordReset
