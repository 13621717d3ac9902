-- ===== src/Handler/Grant/Complete.antt =====
-- When the exchange of a code that was read succeeds.
use one_auth.Base.{
  ℕ, ◌≡◌, ◌≢◌, refl, ◌||◌, true, false, none, some, [], ◌∷◌, Text, str, text_eq_iff, is_empty,
  arith, next,
}
use one_auth.Model.Payload.{AuthCodeData}
use one_auth.Model.User.{User, get_by_id}
use one_auth.Model.Client.{OAuth2Client, normalize_redirect_uri}
use one_auth.Store.{StoreOps}
use one_auth.Handler.Env.{Env, World, Fresh, Request, query, parse_or_nil, verify_pkce}
use one_auth.Handler.Grant.{
  tokens, code_response, verify_exchange, access_for, finish_code, issue_for_code, redeem,
}
use one_auth.Handler.Grant.Exchange.{Proved}

pkce_holds :
    (env : Env) (r : Request) (d : AuthCodeData)
    → Proved env r d
    → (is_empty d.code_challenge
        || verify_pkce env (query r (str "code_verifier")) d.code_challenge d.code_challenge_method)
      ≡ true
pkce_holds env r d p = go d.code_challenge p
  where
    go :
        (ch : Text)
        → (ch ≢ []
            → (d.code_challenge_method ≡ str "S256")
              × (env.s256 (query r (str "code_verifier")) ≡ ch))
        → (is_empty ch
            || verify_pkce env (query r (str "code_verifier")) ch d.code_challenge_method)
          ≡ true
    go [] h = unfold is_empty in refl
    go (c ∷ cs) h =
        let (m, v) = h (λ e. cc) in
        unfold is_empty verify_pkce in
        ground (
          arith,
          text_eq_iff d.code_challenge_method (str "S256"),
          text_eq_iff (env.s256 (query r (str "code_verifier"))) (c ∷ cs),
        )

pub verify_exchange_complete :
    (env : Env) (r : Request) (d : AuthCodeData) (u : User)
    → d.redirect_uri ≡ normalize_redirect_uri (query r (str "redirect_uri"))
    → Proved env r d
    → get_by_id (parse_or_nil env d.user_id) env.users ≡ some u
    → verify_exchange env r d ≡ next u
unfolding verify_exchange
verify_exchange_complete env r d u e p g = ground (
  arith,
  text_eq_iff d.redirect_uri (normalize_redirect_uri (query r (str "redirect_uri"))),
  pkce_holds env r d p,
)

module _ {S : Type 0} (o : StoreOps S) (env : Env) (r : Request) (c : OAuth2Client) where
  pub redeem-tokens :
      (now : ℕ) (fresh : Fresh) (d : AuthCodeData) (u : User) (access : Text) (w : World S)
      → c.issue_refresh_token ≡ false
      → verify_exchange env r d ≡ next u
      → access_for env now fresh c u d.user_id d.scope ≡ some access
      → (redeem o env now fresh r c d w).0 ≡ tokens (code_response env now fresh c d u access none)
  unfolding redeem issue_for_code finish_code
  redeem-tokens now fresh d u access w n v a = ground arith
