-- ===== src/Handler/Authorize/Issue.antt =====
-- The code that the authorization endpoint hands out.
use one_auth.Base.{
  ℕ, ◌+◌, ◌≤◌, ◌≡◌, true, some, Text, str, text_eq_iff, is_positive, pos_part, next, arith,
  text_eq_refl,
}
use one_auth.Model.Payload.{SessionData}
use one_auth.Store.{StoreOps, IsStore}
use one_auth.Oauth.Code.{save, fetch, fetched}
use one_auth.Oauth.Code.Laws.{stamped, fetch-save}
use one_auth.Handler.Env.{Env, World, Fresh, Request, query, current_session}
use one_auth.Handler.Authorize.{
  redirect_code, Checked, precheck, auto_grant, issue_code, keep_consent, code_data, code_url,
  after_gate, with_session, with_client, authorize,
}
use one_auth.Handler.Authorize.Gate.{Allowed, access_gate_iff}
use one_auth.Handler.Authorize.Sound.{Agreed}

module _ {S : Type 0} (o : StoreOps S) (env : Env) (now : ℕ) (fresh : Fresh) (r : Request)
    (k : Checked) (sd : SessionData) (uid : Text) (w w' : World S) where
  after_gate-Agreed :
      Agreed r k uid w'
      → after_gate o env now fresh r k sd uid w' ≡ (
        redirect_code (code_url env k fresh.code),
        issue_code o env now fresh r k sd uid (keep_consent o r k uid w'),
      )
  unfolding after_gate auto_grant
  after_gate-Agreed a = ground (arith, text_eq_iff (query r (str "consent")) (str "1"))

  -- A request that passes every check gets its code.
  pub authorize-issues :
      precheck env r ≡ next k
      → current_session o env now fresh r w ≡ (some sd, w')
      → env.parse_uuid sd.user_id ≡ some uid
      → Allowed env k.client k.client_id uid
      → Agreed r k uid w'
      → authorize o env now fresh r w ≡ (
        redirect_code (code_url env k fresh.code),
        issue_code o env now fresh r k sd uid (keep_consent o r k uid w'),
      )
  unfolding authorize with_client with_session
  authorize-issues p s u a g = rw (
    p,
    authorize,
    s,
    with_client,
    u,
    with_session,
    (access_gate_iff env k uid).1 a,
    after_gate-Agreed g,
  )

  -- The code reads back for its client, with the data of the request and the session, for its whole
  -- lifetime.
  pub issue_code-fetch :
      IsStore o
      → (later : ℕ) (t : S) → save o now env.code_ttl (code_data o now fresh k sd) w'.kv ≡ some t
      → is_positive env.code_ttl ≡ true
      → later ≤ now + pos_part env.code_ttl
      → fetch o later fresh.code k.client_id
          (issue_code o env now fresh r k sd uid (keep_consent o r k uid w')).kv
        ≡ fetched (stamped now (code_data o now fresh k sd))
  unfolding issue_code keep_consent
  issue_code-fetch laws later t e p h = ground (
    arith,
    (fetch-save o laws now later env.code_ttl (code_data o now fresh k sd) k.client_id w'.kv t e
          p).0
        h,
    text_eq_refl k.client_id,
  )
