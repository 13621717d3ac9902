-- ===== src/Model/Payload.antt =====
-- What the program writes into the key/value store: a structure through json.Marshal, or a decimal
-- number. A stored byte string is represented by the value that was marshalled into it, and a
-- decoder below gives what json.Unmarshal into its structure returns, for each value that is stored.
-- internal/oauth/authcode.go, internal/oauth/token.go, internal/session/session.go
use one_auth.Base.{ℕ, Bool, Option, none, some, [], Text}

pub record AuthCodeData : Type 0 where
  pub code : Text
  pub client_id : Text
  pub redirect_uri : Text
  pub scope : Text
  pub user_id : Text
  pub username : Text
  pub nonce : Text
  pub code_challenge : Text
  pub code_challenge_method : Text
  pub auth_time : ℕ
  pub created_at : ℕ

pub record RefreshTokenData : Type 0 where
  pub token : Text
  pub user_id : Text
  pub client_id : Text
  pub scope : Text

pub record SessionData : Type 0 where
  pub session_id : Text
  pub user_id : Text
  pub username : Text
  pub display_name : Text
  pub is_staff : Bool
  pub ip : Text
  pub user_agent : Text
  pub auth_time : ℕ
  pub created_at : ℕ
  pub expires_at : ℕ

-- internal/handler/cas_handler.go
pub record CasTicket : Type 0 where
  pub client_id : Text
  pub service : Text
  pub user_id : Text
  pub username : Text
  pub issued_at : ℕ

-- internal/handler/auth_handler.go
pub record ResetTokenPayload : Type 0 where
  pub user_id : Text
  pub email : Text

pub data Payload : Type 0 where
  auth_code : AuthCodeData → Payload
  refresh : RefreshTokenData → Payload
  session : SessionData → Payload
  number : ℕ → Payload
  cas_ticket : CasTicket → Payload
  reset_token : ResetTokenPayload → Payload

-- Fields go by their JSON names; a session's `auth_time` is a text, so it is no AuthCodeData.
abbrev pub as_auth_code : Payload → Option AuthCodeData
as_auth_code (auth_code d) = some d
as_auth_code (refresh d) = some (record {
  code = [];
  client_id = d.client_id;
  redirect_uri = [];
  scope = d.scope;
  user_id = d.user_id;
  username = [];
  nonce = [];
  code_challenge = [];
  code_challenge_method = [];
  auth_time = 0;
  created_at = 0;
})
as_auth_code (session d) = none
as_auth_code (number n) = none
as_auth_code (cas_ticket d) = some (record {
  code = [];
  client_id = d.client_id;
  redirect_uri = [];
  scope = [];
  user_id = d.user_id;
  username = d.username;
  nonce = [];
  code_challenge = [];
  code_challenge_method = [];
  auth_time = 0;
  created_at = 0;
})
as_auth_code (reset_token d) = some (record {
  code = [];
  client_id = [];
  redirect_uri = [];
  scope = [];
  user_id = d.user_id;
  username = [];
  nonce = [];
  code_challenge = [];
  code_challenge_method = [];
  auth_time = 0;
  created_at = 0;
})

abbrev pub as_refresh : Payload → Option RefreshTokenData
as_refresh (auth_code d) =
    some (record { token = []; user_id = d.user_id; client_id = d.client_id; scope = d.scope })
as_refresh (refresh d) = some d
as_refresh (session d) =
    some (record { token = []; user_id = d.user_id; client_id = []; scope = [] })
as_refresh (number n) = none
as_refresh (cas_ticket d) =
    some (record { token = []; user_id = d.user_id; client_id = d.client_id; scope = [] })
as_refresh (reset_token d) =
    some (record { token = []; user_id = d.user_id; client_id = []; scope = [] })

-- The times of an AuthCodeData are numbers, so it is no SessionData.
abbrev pub as_session : Payload → Option SessionData
as_session (auth_code d) = none
as_session (refresh d) = some (record {
  session_id = [];
  user_id = d.user_id;
  username = [];
  display_name = [];
  is_staff = Bool.false;
  ip = [];
  user_agent = [];
  auth_time = 0;
  created_at = 0;
  expires_at = 0;
})
as_session (session d) = some d
as_session (number n) = none
as_session (cas_ticket d) = some (record {
  session_id = [];
  user_id = d.user_id;
  username = d.username;
  display_name = [];
  is_staff = Bool.false;
  ip = [];
  user_agent = [];
  auth_time = 0;
  created_at = 0;
  expires_at = 0;
})
as_session (reset_token d) = some (record {
  session_id = [];
  user_id = d.user_id;
  username = [];
  display_name = [];
  is_staff = Bool.false;
  ip = [];
  user_agent = [];
  auth_time = 0;
  created_at = 0;
  expires_at = 0;
})

abbrev pub as_number : Payload → Option ℕ
as_number (number n) = some n
as_number _ = none

abbrev pub as_cas_ticket : Payload → Option CasTicket
as_cas_ticket (auth_code d) = some (record {
  client_id = d.client_id;
  service = [];
  user_id = d.user_id;
  username = d.username;
  issued_at = 0;
})
as_cas_ticket (refresh d) = some (record {
  client_id = d.client_id;
  service = [];
  user_id = d.user_id;
  username = [];
  issued_at = 0;
})
as_cas_ticket (session d) = some (record {
  client_id = [];
  service = [];
  user_id = d.user_id;
  username = d.username;
  issued_at = 0;
})
as_cas_ticket (number n) = none
as_cas_ticket (cas_ticket d) = some d
as_cas_ticket (reset_token d) =
    some
      (record { client_id = []; service = []; user_id = d.user_id; username = []; issued_at = 0 })

abbrev pub as_reset_token : Payload → Option ResetTokenPayload
as_reset_token (auth_code d) = some (record { user_id = d.user_id; email = [] })
as_reset_token (refresh d) = some (record { user_id = d.user_id; email = [] })
as_reset_token (session d) = some (record { user_id = d.user_id; email = [] })
as_reset_token (number n) = none
as_reset_token (cas_ticket d) = some (record { user_id = d.user_id; email = [] })
as_reset_token (reset_token d) = some d
