-- ===== src/Oauth/Token/Refresh.antt =====
-- Refresh tokens, over any store that keeps the laws.
use one_auth.Base.{
  ℕ, ◌+◌, ◌≤◌, ◌≡◌, ◌≢◌, true, none, some, Text, str, ℤ, is_positive, pos_part, arith,
  append_left_cancel,
}
use one_auth.Store.{StoreOps, IsStore}
use one_auth.Oauth.Token.{
  TokenService, positive_or, refresh_key, save_refresh_token, load_refresh_token,
  delete_refresh_token,
}

refresh_key-ne : (a b : Text) → a ≢ b → refresh_key a ≢ refresh_key b
refresh_key-ne a b h e = h (append_left_cancel (str "refresh:") e)

module _ {S : Type 0} (o : StoreOps S) (laws : IsStore o) where
  pub load-save :
      (ts : TokenService) (now later : ℕ) (token user_id client_id scope : Text) (ttl : ℤ) (s t : S)
      → save_refresh_token o ts now token user_id client_id scope ttl s ≡ some t
      → is_positive (positive_or ttl ts.refresh_ttl) ≡ true
      → later ≤ now + pos_part (positive_or ttl ts.refresh_ttl)
      → load_refresh_token o later token t
        ≡ some (record { token = token; user_id = user_id; client_id = client_id; scope = scope })
  unfolding save_refresh_token load_refresh_token
  load-save ts now later token user_id client_id scope ttl s t e p h = ground (
    arith,
    laws.get-set_live now later (refresh_key token) _ (positive_or ttl ts.refresh_ttl) s t e p h,
  )

  pub load-save_ne :
      (ts : TokenService) (now later : ℕ) (token other user_id client_id scope : Text) (ttl : ℤ)
      (s t : S)
      → save_refresh_token o ts now token user_id client_id scope ttl s ≡ some t
      → token ≢ other
      → load_refresh_token o later other t ≡ load_refresh_token o later other s
  unfolding save_refresh_token load_refresh_token
  load-save_ne ts now later token other user_id client_id scope ttl s t e h = ground (
    arith,
    laws.get-set_ne now later (refresh_key token) (refresh_key other) _
        (positive_or ttl ts.refresh_ttl) s t e (refresh_key-ne token other h),
  )

  pub load-delete :
      (later : ℕ) (token : Text) (s : S)
      → load_refresh_token o later token (delete_refresh_token o token s) ≡ none
  unfolding load_refresh_token delete_refresh_token
  load-delete later token s = ground (arith, laws.get-del_self later (refresh_key token) s)

  pub load-delete_ne :
      (later : ℕ) (token other : Text) (s : S)
      → token ≢ other
      → load_refresh_token o later other (delete_refresh_token o token s)
        ≡ load_refresh_token o later other s
  unfolding load_refresh_token delete_refresh_token
  load-delete_ne later token other s h = ground (
    arith,
    laws.get-del_ne later (refresh_key token) (refresh_key other) s (refresh_key-ne token other h),
  )
