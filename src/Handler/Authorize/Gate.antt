-- ===== src/Handler/Authorize/Gate.antt =====
-- What the stages of the authorization endpoint let through.
use one_auth.Base.{
  ◌≡◌, ◌≢◌, ◌↔◌, ◌⊎◌, inl, inr, sym, subst, true, false, ◌&&◌, some, [], Text, str, text_eq_iff,
  is_empty, next, arith, Option-cases, Bool-cases,
}
use one_auth.Model.Client.{OAuth2Client, is_public, get_by_client_id, check_redirect_uri}
use one_auth.Model.Client.Redirect.{Registered, check_redirect_uri_iff}
use one_auth.Handler.Env.{Env, Request, query, query_or}
use one_auth.Handler.Authorize.Granted.{HasGrant, user_allowed_iff}
use one_auth.Handler.Authorize.{Checked, request_redirect_uri, precheck, check_client, access_gate}

-- A request that passes the checks before the session is read.
pub record IsChecked (env : Env) (r : Request) (k : Checked) : Type 0 where
  pub response_type : query_or r (str "response_type") (str "code") ≡ str "code"
  pub found : get_by_client_id (query r (str "client_id")) env.clients ≡ some k.client
  pub client_id : k.client_id ≡ query r (str "client_id")
  pub active : k.client.is_active ≡ true
  pub uri : k.redirect_uri ≡ request_redirect_uri env r
  pub registered : Registered (request_redirect_uri env r) k.client.redirect_uris
  pub scope : k.scope ≡ query_or r (str "scope") (str "openid")
  pub nonce : k.nonce ≡ query r (str "nonce")
  pub challenge : k.code_challenge ≡ query r (str "code_challenge")
  pub method : k.code_challenge_method ≡ query_or r (str "code_challenge_method") (str "S256")
  pub pkce : is_public k.client ≡ true → k.code_challenge ≢ []

check_client-next :
    (env : Env) (r : Request) (uri : Text) (c : OAuth2Client) {u : Unit {0}}
    → check_client env r uri c ≡ next u
    → (c.is_active ≡ true)
      × (check_redirect_uri c uri ≡ true)
      × (is_public c && is_empty (query r (str "code_challenge")) ≡ false)
unfolding check_client
check_client-next env r uri c h = ground arith

pub precheck-IsChecked :
    (env : Env) (r : Request) (k : Checked) → precheck env r ≡ next k → IsChecked env r k
unfolding precheck
precheck-IsChecked env r k h =
    elim (Option-cases (get_by_client_id (query r (str "client_id")) env.clients)) [
      | inl n ↦ absurd (ground arith)
      | inr (c, f) ↦
          let g : (c.is_active ≡ true)
              × (check_redirect_uri c (request_redirect_uri env r) ≡ true)
              × (is_public c && is_empty (query r (str "code_challenge")) ≡ false) =
            ground (arith, check_client-next env r (request_redirect_uri env r) c {u = tt}) in
          let same : k.client ≡ c = ground arith in
          record {
            response_type =
                ground
                  (arith, text_eq_iff (query_or r (str "response_type") (str "code")) (str "code"));
            found = ground arith;
            client_id = ground arith;
            active = ground arith;
            uri = ground arith;
            registered =
                subst
                  (λ (x : OAuth2Client). Registered (request_redirect_uri env r) x.redirect_uris)
                  (sym same) ((check_redirect_uri_iff c (request_redirect_uri env r)).0 g.1);
            scope = ground arith;
            nonce = ground arith;
            challenge = ground arith;
            method = ground arith;
            pkce = λ p e. unfold is_empty in ground arith;
          }
    ]

-- The application is built in, or it may be entered by the user.
abbrev pub Allowed : Env → OAuth2Client → Text → Text → Type 0
Allowed env c client_id uid =
    (c.is_builtin ≡ true)
    ⊎ ((c.allow_sp_initiated ≡ true)
        × (c.access_policy ≢ str "none")
        × (c.access_policy ≡ str "assigned" → HasGrant env client_id uid))

-- The gate of an application opens for a user exactly if it is built in, or may be entered from its
-- own side under a policy other than "none" and, under the policy "assigned", there is a grant of the
-- application for the user: by name, for a group of the user's, or for the user's department.
pub access_gate_iff :
    (env : Env) (k : Checked) (uid : Text)
    → (access_gate env k uid ≡ next tt) ↔ Allowed env k.client k.client_id uid
unfolding access_gate
access_gate_iff env k uid = (
  λ h. elim (Bool-cases k.client.is_builtin) [
    | inl b ↦ inl b
    | inr b ↦ inr (
      ground arith,
      λ e. absurd (ground (arith, text_eq_iff k.client.access_policy (str "none"))),
      λ e. (user_allowed_iff env k.client_id uid).0 (
          ground (
            arith,
            text_eq_iff k.client.access_policy (str "none"),
            text_eq_iff k.client.access_policy (str "assigned"),
          )),
    )
  ],
  λ a. ground (
    arith,
    text_eq_iff k.client.access_policy (str "none"),
    text_eq_iff k.client.access_policy (str "assigned"),
    user_allowed_iff env k.client_id uid,
  ),
)
