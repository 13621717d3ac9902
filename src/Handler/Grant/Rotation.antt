-- ===== src/Handler/Grant/Rotation.antt =====
-- The refresh grant.
use one_auth.Base.{
  ℕ, ◌+◌, ◌≤◌, ◌≡◌, ◌≢◌, inl, inr, sym, ap, ◌∙◌, true, none, some, Text, str, text_eq_iff, text_eq,
  is_empty, ℤ, is_positive, pos_part, seconds, arith, Option-cases, Bool-cases,
}
use one_auth.Model.Payload.{RefreshTokenData}
use one_auth.Model.User.{User, get_by_id}
use one_auth.Model.Client.{OAuth2Client}
use one_auth.Store.{StoreOps, IsStore}
use one_auth.Oauth.Token.{positive_or, save_refresh_token, load_refresh_token, delete_refresh_token}
use one_auth.Oauth.Token.Refresh.{load-save, load-save_ne, load-delete}
use one_auth.Handler.Env.{Env, World, Fresh, Request, query, parse_or_nil, text_of}
use one_auth.Handler.Grant.{
  TokenReply, TokenResponse, tokens, access_for, log_access, finish_refresh, rotate,
  refresh_token_grant,
}

-- The lifetime of a refresh token of the client.
abbrev pub refresh_lifetime : Env → OAuth2Client → ℤ
refresh_lifetime env c = positive_or (seconds c.refresh_token_ttl) env.ts.refresh_ttl

-- All that holds when a refresh token is exchanged; `w'` is the world afterwards.
pub record Rotated {S : Type 0} (o : StoreOps S) (env : Env) (now : ℕ) (fresh : Fresh) (r : Request)
    (c : OAuth2Client) (w w' : World S) (resp : TokenResponse) : Type 0 where
  pub d : RefreshTokenData
  pub u : User
  pub stored : load_refresh_token o now (query r (str "refresh_token")) w.kv ≡ some d
  pub client : d.client_id ≡ c.client_id
  pub user : get_by_id (parse_or_nil env d.user_id) env.users ≡ some u
  pub access : resp.access_token ≡ text_of (access_for env now fresh c u d.user_id d.scope)
  pub scope : resp.scope ≡ d.scope
  pub renewed : resp.refresh_token ≡ some fresh.refresh_token
  pub old_gone :
      fresh.refresh_token ≢ query r (str "refresh_token")
      → (later : ℕ) → load_refresh_token o later (query r (str "refresh_token")) w'.kv ≡ none
  pub new_live :
      is_positive (refresh_lifetime env c) ≡ true
      → (later : ℕ) → later ≤ now + pos_part (refresh_lifetime env c)
      → load_refresh_token o later fresh.refresh_token w'.kv
        ≡ some (record {
          token = fresh.refresh_token;
          user_id = d.user_id;
          client_id = c.client_id;
          scope = d.scope;
        })

module _ {S : Type 0} (o : StoreOps S) (laws : IsStore o) (env : Env) (now : ℕ) (fresh : Fresh)
    (r : Request) (c : OAuth2Client) where
  finish_refresh-saved :
      (d : RefreshTokenData) (u : User) (w : World S) (resp : TokenResponse)
      → (finish_refresh o env now fresh r c d u w).0 ≡ tokens resp
      → (t : S) × (save_refresh_token o env.ts now fresh.refresh_token d.user_id c.client_id d.scope
            (seconds c.refresh_token_ttl)
            w.kv
          ≡ some t)
        × ((finish_refresh o env now fresh r c d u w).1.kv ≡ t)
        × (resp.access_token ≡ text_of (access_for env now fresh c u d.user_id d.scope))
        × (resp.scope ≡ d.scope)
        × (resp.refresh_token ≡ some fresh.refresh_token)
  unfolding finish_refresh log_access
  finish_refresh-saved d u w resp h =
      elim (Option-cases (
        save_refresh_token o env.ts now fresh.refresh_token d.user_id c.client_id d.scope
          (seconds c.refresh_token_ttl) w.kv)) [
            | inl n ↦ absurd (ground arith)
            | inr (t, e) ↦ (t, e, ground arith, ground arith, ground arith, ground arith)
          ]

  -- The world in which the new token is made.
  abbrev without_old : World S → World S
  without_old w = record w { kv = delete_refresh_token o (query r (str "refresh_token")) w.kv }

  refresh_token_grant-rotate :
      (d : RefreshTokenData) (u : User) (w : World S) (resp : TokenResponse)
      → load_refresh_token o now (query r (str "refresh_token")) w.kv ≡ some d
      → get_by_id (parse_or_nil env d.user_id) env.users ≡ some u
      → (refresh_token_grant o env now fresh r c w).0 ≡ tokens resp
      → (d.client_id ≡ c.client_id)
        × (refresh_token_grant o env now fresh r c w
            ≡ finish_refresh o env now fresh r c d u (without_old w))
  unfolding refresh_token_grant rotate
  refresh_token_grant-rotate d u w resp l g h =
      elim (Bool-cases (is_empty (query r (str "refresh_token")))) [
        | inl e ↦ absurd (ground arith)
        | inr e ↦ elim (Bool-cases (text_eq d.client_id c.client_id)) [
          | inl s ↦ (
            (text_eq_iff d.client_id c.client_id).0 s,
            rw (e, l, s, g, refresh_token_grant, rotate),
          )
          | inr s ↦ absurd (ground arith)
        ]
      ]

  -- A refresh token is exchanged only for its own client and an existing user. It is gone
  -- afterwards, and the new one stands for the same user and scope for its whole lifetime.
  pub refresh_token_grant-Rotated :
      (w : World S) (resp : TokenResponse)
      → (refresh_token_grant o env now fresh r c w).0 ≡ tokens resp
      → Rotated o env now fresh r c w (refresh_token_grant o env now fresh r c w).1 resp
  unfolding refresh_token_grant rotate
  refresh_token_grant-Rotated w resp h =
      let rt : Text = query r (str "refresh_token") in
      elim (Option-cases (load_refresh_token o now rt w.kv)) [
        | inl n ↦ absurd (ground arith)
        | inr (d, l) ↦ elim (Option-cases (get_by_id (parse_or_nil env d.user_id) env.users)) [
          | inl n ↦ absurd (ground arith)
          | inr (u, g) ↦
              let (client, eq) = refresh_token_grant-rotate d u w resp l g h in
              let (t, saved, kv, access, scope, renewed) =
                finish_refresh-saved d u (without_old w) resp
                  (ap (λ (p : TokenReply × World S). p.0) (sym eq) ∙ h) in
              let kv' : (refresh_token_grant o env now fresh r c w).1.kv ≡ t =
                ap (λ (p : TokenReply × World S). p.1.kv) eq ∙ kv in
              record {
                d = d;
                u = u;
                stored = l;
                client = client;
                user = g;
                access = access;
                scope = scope;
                renewed = renewed;
                old_gone = λ ne later.
                    ap (load_refresh_token o later rt) kv'
                    ∙ (load-save_ne o laws env.ts now later fresh.refresh_token rt d.user_id
                          c.client_id d.scope (seconds c.refresh_token_ttl) (without_old w).kv t
                          saved ne
                        ∙ load-delete o laws later rt w.kv);
                new_live = λ p later le.
                    ap (load_refresh_token o later fresh.refresh_token) kv'
                    ∙ (load-save o laws env.ts now later fresh.refresh_token d.user_id c.client_id
                        d.scope (seconds c.refresh_token_ttl) (without_old w).kv t saved p le);
              }
        ]
      ]
