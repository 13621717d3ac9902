-- ===== src/Handler/Authorize/Sound.antt =====
-- When the authorization endpoint hands out a code.
use one_auth.Base.{
  ℕ, ◌≡◌, ◌⊎◌, inl, inr, refl, true, false, Option, none, some, Text, str, text_eq_iff, Bool, next,
  reply, arith, Option-cases, Flow-cases,
}
use one_auth.Model.Payload.{SessionData}
use one_auth.Model.Client.{OAuth2Client, get_by_client_id}
use one_auth.Store.{StoreOps}
use one_auth.Handler.Env.{Env, World, Fresh, Request, query, has_consent, current_session}
use one_auth.Handler.Authorize.{
  AuthorizeReply, redirect_code, Checked, precheck, access_gate, auto_grant, after_gate,
  with_session, with_client, authorize, error_redirect, check_client, request_redirect_uri, Denial,
  pkce_required, unsupported_response_type, sp_initiated_off, no_grants, not_allowed,
}
use one_auth.Handler.Authorize.Gate.{IsChecked, precheck-IsChecked, Allowed, access_gate_iff}

-- The user agreed: no consent is wanted, one is on record, or the request brings it.
abbrev pub Agreed : Request → Checked → Text → {S : Type 0} → World S → Type 0
Agreed r k uid w =
    (k.client.is_builtin ≡ true)
    ⊎ (k.client.require_consent ≡ false)
    ⊎ (has_consent uid k.client_id k.scope w.consents ≡ true)
    ⊎ (query r (str "consent") ≡ str "1")

-- All that holds when a code is handed out: `k` is the checked request, `sd` the session and `uid`
-- the user, and `w'` the world after the session was read.
pub record Cleared {S : Type 0} (o : StoreOps S) (env : Env) (now : ℕ) (fresh : Fresh) (r : Request)
    (w : World S) : Type 0 where
  pub k : Checked
  pub sd : SessionData
  pub uid : Text
  pub w' : World S
  pub checked : IsChecked env r k
  pub logged_in : current_session o env now fresh r w ≡ (some sd, w')
  pub user : env.parse_uuid sd.user_id ≡ some uid
  pub allowed : Allowed env k.client k.client_id uid
  pub agreed : Agreed r k uid w'

unfoldable pub is_code : AuthorizeReply → Bool
is_code (redirect_code loc) = true
is_code a = false

is_code-error_redirect :
    (env : Env) (uri : Text) (d : Denial) (state : Text)
    → is_code (error_redirect env uri d state) ≡ false
unfolding error_redirect is_code
is_code-error_redirect env uri d state = ground arith

is_code-check_client :
    (env : Env) (r : Request) (uri : Text) (c : OAuth2Client) (a : AuthorizeReply)
    → check_client env r uri c ≡ reply a
    → is_code a ≡ false
unfolding check_client is_code
is_code-check_client env r uri c a h =
    ground (arith, is_code-error_redirect env uri pkce_required (query r (str "state")))

is_code-precheck :
    (env : Env) (r : Request) (a : AuthorizeReply) → precheck env r ≡ reply a → is_code a ≡ false
unfolding precheck is_code
is_code-precheck env r a h =
    elim (Option-cases (get_by_client_id (query r (str "client_id")) env.clients)) [
      | inl n ↦ ground (
        arith,
        is_code-error_redirect env (request_redirect_uri env r) unsupported_response_type
            (query r (str "state")),
      )
      | inr (c, f) ↦ ground (
        arith,
        is_code-check_client env r (request_redirect_uri env r) c a,
        is_code-error_redirect env (request_redirect_uri env r) unsupported_response_type
            (query r (str "state")),
      )
    ]

is_code-access_gate :
    (env : Env) (k : Checked) (uid : Text) (a : AuthorizeReply)
    → access_gate env k uid ≡ reply a
    → is_code a ≡ false
unfolding access_gate
is_code-access_gate env k uid a h = ground (
  arith,
  is_code-error_redirect env k.redirect_uri sp_initiated_off k.state,
  is_code-error_redirect env k.redirect_uri no_grants k.state,
  is_code-error_redirect env k.redirect_uri not_allowed k.state,
)

module _ {S : Type 0} (o : StoreOps S) (env : Env) (now : ℕ) (fresh : Fresh) (r : Request) where
  after_gate-Agreed :
      (k : Checked) (sd : SessionData) (uid : Text) (w : World S)
      → is_code (after_gate o env now fresh r k sd uid w).0 ≡ true
      → Agreed r k uid w
  unfolding after_gate auto_grant is_code
  after_gate-Agreed k sd uid w h = ground (arith, text_eq_iff (query r (str "consent")) (str "1"))

  with_session-Allowed :
      (k : Checked) (sd : SessionData) (w : World S)
      → is_code (with_session o env now fresh r k sd w).0 ≡ true
      → (uid : Text) × (env.parse_uuid sd.user_id ≡ some uid)
        × (access_gate env k uid ≡ next tt)
        × Agreed r k uid w
  unfolding with_session
  with_session-Allowed k sd w h = elim (Option-cases (env.parse_uuid sd.user_id)) [
    | inl n ↦ absurd (unfold is_code in ground arith)
    | inr (uid, e) ↦ elim (Flow-cases (access_gate env k uid)) [
      | inl (a, g) ↦ absurd (ground (arith, is_code-access_gate env k uid a g))
      | inr (t, g) ↦ (uid, e, g, after_gate-Agreed k sd uid w (ground arith))
    ]
  ]

  with_client-session :
      (k : Checked) (p : Option SessionData × World S)
      → is_code (with_client o env now fresh r k p).0 ≡ true
      → (sd : SessionData) × (p ≡ (some sd, p.1))
        × (is_code (with_session o env now fresh r k sd p.1).0 ≡ true)
  unfolding with_client is_code
  with_client-session k (none, w) h = cc
  with_client-session k (some sd, w) h = (sd, refl, h)

  -- A redirect with a code is made only for an active client and a registered redirect URI, with a
  -- PKCE challenge from a public client, for a logged-in user whom the application admits, and with
  -- consent.
  pub authorize-Cleared :
      (w : World S) (loc : Text)
      → (authorize o env now fresh r w).0 ≡ redirect_code loc
      → Cleared o env now fresh r w
  unfolding authorize
  authorize-Cleared w loc h = elim (Flow-cases (precheck env r)) [
    | inl (a, e) ↦ absurd (unfold is_code in ground (arith, is_code-precheck env r a e))
    | inr (k, e) ↦
        let (sd, same, coded) =
          with_client-session k (current_session o env now fresh r w)
            (unfold is_code in ground arith) in
        let (uid, parsed, gate, agreed) =
          with_session-Allowed k sd (current_session o env now fresh r w).1 coded in
        record {
          k = k;
          sd = sd;
          uid = uid;
          w' = (current_session o env now fresh r w).1;
          checked = precheck-IsChecked env r k e;
          logged_in = same;
          user = parsed;
          allowed = (access_gate_iff env k uid).0 gate;
          agreed = agreed;
        }
  ]
