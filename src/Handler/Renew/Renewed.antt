-- ===== src/Handler/Renew/Renewed.antt =====
-- When Refresh renews, and what it leaves.
use one_auth.Base.{
  ℕ, ◌+◌, ◌≤◌, ◌≡◌, ◌≢◌, inl, inr, ◌∙◌, true, false, Option, none, some, or_else, Text, is_empty,
  pos, is_positive, pos_part, arith, Option-cases, Bool-cases,
}
use one_auth.Model.Payload.{RefreshTokenData}
use one_auth.Model.User.{User, get_by_id}
use one_auth.Store.{StoreOps, IsStore}
use one_auth.Oauth.Token.{save_refresh_token, load_refresh_token, delete_refresh_token}
use one_auth.Oauth.Token.Refresh.{load-save, load-save_ne, load-delete}
use one_auth.Handler.Env.{Fresh, nil_uuid}
use one_auth.Handler.Login.{AuthHandler, AuthWorld}
use one_auth.Handler.Renew.{RefreshResponse, renewed, is_timed_out, renew, refresh_user, refresh}

module _ {S : Type 0} (o : StoreOps S) (laws : IsStore o) (parse_uuid : Text → Option Text)
    (h : AuthHandler) (now : ℕ) (fresh : Fresh) where
  -- A renewal saves the new token after the old one is deleted.
  renew-saved :
      (rt : RefreshTokenData) (u : User) (w : AuthWorld S) (resp : RefreshResponse)
      → (renew o parse_uuid h now fresh rt u w).0 ≡ renewed resp
      → (save_refresh_token o h.ts now fresh.refresh_token rt.user_id rt.client_id rt.scope
            (pos 0)
            w.kv
          ≡ some (renew o parse_uuid h now fresh rt u w).1.kv)
        × (resp.refresh_token ≡ fresh.refresh_token)
  unfolding renew
  renew-saved rt u w resp e = (ground arith, ground arith)

  -- All that holds when Refresh renews
  abbrev pub IsRenewal : Text → AuthWorld S → AuthWorld S → Type 0
  IsRenewal token w w' =
      (rt : RefreshTokenData) × (load_refresh_token o now token w.kv ≡ some rt)
      × ((u : User) × (get_by_id (or_else (parse_uuid rt.user_id) nil_uuid) w.users ≡ some u))
      × (is_timed_out o h now rt.user_id w.kv ≡ false)
      × (save_refresh_token o h.ts now fresh.refresh_token rt.user_id rt.client_id rt.scope (pos 0)
            (delete_refresh_token o token w.kv)
          ≡ some w'.kv)

  refresh-IsRenewal :
      (token : Text) (w : AuthWorld S) (resp : RefreshResponse)
      → (refresh o parse_uuid h now fresh token w).0 ≡ renewed resp
      → IsRenewal token w (refresh o parse_uuid h now fresh token w).1
  unfolding refresh refresh_user
  refresh-IsRenewal token w resp e = elim (Bool-cases (is_empty token)) [
    | inl n ↦ absurd (ground arith)
    | inr n ↦ elim (Option-cases (load_refresh_token o now token w.kv)) [
      | inl k ↦ absurd (ground arith)
      | inr (rt, k) ↦
          elim (Option-cases (get_by_id (or_else (parse_uuid rt.user_id) nil_uuid) w.users)) [
            | inl i ↦ absurd (ground arith)
            | inr (u, i) ↦ elim (Bool-cases (is_timed_out o h now rt.user_id w.kv)) [
              | inl t ↦ absurd (ground arith)
              | inr t ↦
                  let w' : AuthWorld S = record w { kv = delete_refresh_token o token w.kv } in
                  let saved = renew-saved rt u w' resp (ground arith) in
                  (rt, k, (u, i), t, (ground (arith, saved)))
            ]
          ]
    ]
  ]

  -- Refresh renews only a token that the store holds, for a user that there is, and within the time
  -- of inactivity that is allowed. Where the new token differs from the old one and the lifetime of
  -- refresh tokens is positive, then until that lifetime is over the old token is not found, and the
  -- new one stands for the same user, client and scope.
  pub refresh-Renewed :
      (token : Text) (w : AuthWorld S) (resp : RefreshResponse)
      → (refresh o parse_uuid h now fresh token w).0 ≡ renewed resp
      → fresh.refresh_token ≢ token
      → is_positive h.ts.refresh_ttl ≡ true
      → (later : ℕ) → later ≤ now + pos_part h.ts.refresh_ttl
      → (rt : RefreshTokenData) × (load_refresh_token o now token w.kv ≡ some rt)
        × ((u : User) × (get_by_id (or_else (parse_uuid rt.user_id) nil_uuid) w.users ≡ some u))
        × (is_timed_out o h now rt.user_id w.kv ≡ false)
        × (load_refresh_token o later token (refresh o parse_uuid h now fresh token w).1.kv ≡ none)
        × (load_refresh_token o later fresh.refresh_token
              (refresh o parse_uuid h now fresh token w).1.kv
            ≡ some (record {
              token = fresh.refresh_token;
              user_id = rt.user_id;
              client_id = rt.client_id;
              scope = rt.scope;
            }))
  refresh-Renewed token w resp e new p later before =
      let (rt, k, user, t, saved) = refresh-IsRenewal token w resp e in
      (
        rt,
        k,
        user,
        t,
        load-save_ne o laws h.ts now later fresh.refresh_token token _ _ _ _ _ _ saved new
            ∙ load-delete o laws later token w.kv,
        load-save o laws h.ts now later fresh.refresh_token _ _ _ (pos 0) _ _ saved p before,
      )
