-- ===== src/Tests.antt =====
-- Concrete inputs, tests of the definitions, and the theorems applied at such inputs.
pub mod Data
pub mod Stores
pub mod Tokens
pub mod Endpoints
pub mod Grants
pub mod Rules
pub mod Accounts
pub mod Logins
pub mod Portal
pub mod Info
pub mod Passwords
pub mod Cas
pub mod Directory
pub mod Imports
pub mod Departments
pub mod NewUsers
