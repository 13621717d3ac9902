-- ===== src/Handler/Login/Captcha.antt =====
-- The counter that the captcha gate of Login reads: "loginfail:" with the address and the name.
use one_auth.Base.{
  ℕ, ◌≡◌, ◌≢◌, ◌⊎◌, inl, inr, refl, Bool, false, none, some, Text, arith, Bool-cases, Option-cases,
  subst, if_intro, pos, second, unix, ◌*◌, is_empty, text_eq_iff, ap, ltz, [], ◌∷◌, List, ℤ,
  text_eq, text_eq_sound,
}
use one_auth.Store.{StoreOps, IsStore}
use one_auth.Model.Payload.{Payload, number, session, SessionData}
use one_auth.Session.{create, session_key}
use one_auth.Oauth.Token.{TokenService, save_refresh_token, refresh_key}
use one_auth.Handler.Login.Counters.{
  consume_ticket, record_ip_fail, clear_ip_fail, mark_active, record_user_fail,
}
use one_auth.Handler.Settings.{ip_ban_enabled, ip_ban_threshold}
use one_auth.Handler.Login.{
  ip_ban_window, AuthHandler, AuthWorld, captcha_fail_window, login_fail_key, user_fail_key,
  ip_fail_key, activity_key, ticket_key,
}

module _ {S : Type 0} (o : StoreOps S) (later : ℕ) (k : Text) where
  -- What is read at a key is as it was, or nothing.
  abbrev pub IsKept : S → S → Type 0
  IsKept s t = (o.get later k t ≡ o.get later k s) ⊎ (o.get later k t ≡ none)

  pub IsKept-trans : (r s t : S) → IsKept r s → IsKept s t → IsKept r t
  IsKept-trans r s t p q = ground arith

-- No other key of the handler has the second byte of "loginfail:".
abbrev second_byte : Text → ℕ
second_byte [] = 0
second_byte (c ∷ []) = 0
second_byte (c ∷ (d ∷ s)) = d

differs : (s t : Text) → second_byte s ≢ second_byte t → s ≢ t
differs s t h e = h (ap second_byte e)

text_eq-ne : (x y : Text) → text_eq x y ≡ false → x ≢ y
text_eq-ne x y n e = absurd (ground (arith, text_eq_iff x y, e))

module _ {S : Type 0} (o : StoreOps S) (laws : IsStore o) (later : ℕ) (username ip : Text) where
  abbrev pub key : Text
  key = login_fail_key username ip

  abbrev pub Kept : S → S → Type 0
  Kept s t = IsKept o later key s t

  pub kept_del : (x : Text) (s : S) → Kept s (o.del x s)
  kept_del x s = elim (Bool-cases (text_eq x key)) [
    | inl e ↦ inr (rw (text_eq_sound x key e) (laws.get-del_self later key s))
    | inr n ↦ inl (laws.get-del_ne later x key s (λ e. text_eq-ne x key n e))
  ]

  kept_set :
      (now : ℕ) (x : Text) (v : Payload) (ttl : ℤ) (s t : S)
      → second_byte x ≢ second_byte key
      → o.set now x v ttl s ≡ some t
      → Kept s t
  kept_set now x v ttl s t n e = inl (laws.get-set_ne now later x key v ttl s t e (differs x key n))

  kept_incr :
      (now : ℕ) (x : Text) (ttl : ℤ) (s : S) (n : ℕ) (t : S)
      → second_byte x ≢ second_byte key
      → o.incr now x ttl s ≡ some (n, t)
      → Kept s t
  kept_incr now x ttl s n t d e =
      inl (laws.get-incr_ne now later x key ttl s n t e (differs x key d))

  pub kept_create :
      (ttl : ℤ) (now : ℕ) (sid uid name display addr ua : Text) (staff : Bool) (index : List Text)
      (s : S) (d : SessionData) (index' : List Text) (t : S)
      → create o ttl now sid uid name display addr ua staff index s ≡ some (d, index', t)
      → Kept s t
  unfolding create
  kept_create ttl now sid uid name display addr ua staff index s d index' t e =
      kept_set now (session_key sid) (session d) ttl s t (omega arith) (ground arith)

  pub kept_refresh :
      (ts : TokenService) (now : ℕ) (token uid client scope : Text) (ttl : ℤ) (s t : S)
      → save_refresh_token o ts now token uid client scope ttl s ≡ some t
      → Kept s t
  unfolding save_refresh_token
  kept_refresh ts now token uid client scope ttl s t e =
      kept_set now (refresh_key token) _ _ s t (omega arith) e

  pub kept_fail : (now : ℕ) (name : Text) (s : S) → Kept s (record_user_fail o now name s).1
  unfolding record_user_fail
  kept_fail now name s =
      elim (Option-cases (o.incr now (user_fail_key name) captcha_fail_window s)) [
        | inl n ↦ rw (record_user_fail, n) (inl refl)
        | inr (p, e) ↦
            rw (record_user_fail, e)
              (kept_incr now (user_fail_key name) captcha_fail_window s p.0 p.1 (omega arith) e)
      ]

  pub kept_activity : (now : ℕ) (uid : Text) (s : S) → Kept s (mark_active o now uid s)
  unfolding mark_active
  kept_activity now uid s =
      let ttl : ℤ = pos (1_209_600 * second) in
      if_intro (Kept s) (is_empty uid) (λ _. inl refl)
        (λ _. elim (Option-cases (o.set now (activity_key uid) (number (unix now)) ttl s)) [
          | inl n ↦ rw (n) (inl refl)
          | inr (t, e) ↦
              rw (e) (kept_set now (activity_key uid) (number (unix now)) ttl s t (omega arith) e)
        ])

  pub kept_ip :
      (h : AuthHandler) (now : ℕ) (addr : Text) (w : AuthWorld S)
      → Kept w.kv (record_ip_fail o h now addr w).kv
  unfolding record_ip_fail clear_ip_fail
  kept_ip h now addr w =
      if_intro (λ (v : AuthWorld S). Kept w.kv v.kv) (ip_ban_enabled h.config)
        (λ _. elim (Option-cases (o.incr now (ip_fail_key addr) ip_ban_window w.kv)) [
          | inl n ↦ rw (n) (inl refl)
          | inr (p, e) ↦
              let q = kept_incr now (ip_fail_key addr) ip_ban_window w.kv p.0 p.1 (omega arith) e in
              rw (e) (
                if_intro (λ (v : AuthWorld S). Kept w.kv v.kv)
                  (ltz (pos p.0) (ip_ban_threshold h.config)) (λ _. q)
                  (λ _.
                    IsKept-trans o later key w.kv p.1 (o.del (ip_fail_key addr) p.1) q
                      (kept_del (ip_fail_key addr) p.1)))
        ])
        (λ _. inl refl)

  pub kept_ticket :
      (now : ℕ) (ticket : Text) (s t : S) → consume_ticket o now ticket s ≡ some t → Kept s t
  unfolding consume_ticket
  kept_ticket now ticket s t e = subst (Kept s) (ground arith) (kept_del (ticket_key ticket) s)
