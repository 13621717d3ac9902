-- ===== src/Oauth.antt =====
-- internal/oauth: authorization codes, tokens, and the interface of the JWT library.
pub mod Code
pub mod Jwt
pub mod Token
