-- ===== src/Handler/Login/Counters.antt =====
-- internal/handler/auth_handler.go: the counters of failed logins, the captcha gate with the ticket
-- of internal/captcha/captcha.go, the automatic ban of an address, and the mark of activity of
-- internal/middleware/activity.go.
use one_auth.Base.{
  ℕ, Bool, false, not, Option, none, some, or_else, Text, str, text_eq, is_empty, if◌then◌else◌,
  pos, ltz, second, unix, ◌*◌,
}
use one_auth.Model.Payload.{number, as_number}
use one_auth.Store.{StoreOps}
use one_auth.IpAccess.{upsert_auto_ban}
use one_auth.Handler.Settings.{captcha_threshold, ip_ban_threshold, ip_ban_duration, ip_ban_enabled}
use one_auth.Handler.Login.{
  AuthHandler, AuthWorld, login_fail_key, user_fail_key, ip_fail_key, activity_key, ticket_key,
  captcha_fail_window, ip_ban_window,
}

module _ {S : Type 0} (o : StoreOps S) where
  unfoldable pub login_fail_count : ℕ → Text → Text → S → ℕ
  login_fail_count now username ip s = elim (o.get now (login_fail_key username ip) s) [
    | none ↦ 0
    | some v ↦ or_else (as_number v) 0
  ]

  -- captchaRequired, with captchaEnabled
  unfoldable pub needs_captcha : AuthHandler → ℕ → Text → Text → S → Bool
  needs_captcha h now username ip s =
      if text_eq (h.config (str "captcha_enabled")) (str "true")
      then not (ltz (pos (login_fail_count now username ip s)) (captcha_threshold h.config))
      else false

  -- Service.ConsumeTicket: the store without the ticket, if it was there
  unfoldable pub consume_ticket : ℕ → Text → S → Option S
  consume_ticket now ticket s =
      if is_empty ticket then none else elim (o.get now (ticket_key ticket) s) [
        | none ↦ none
        | some v ↦ some (o.del (ticket_key ticket) s)
      ]

  unfoldable pub clear_login_fail : Text → Text → S → S
  clear_login_fail username ip s = o.del (login_fail_key username ip) s

  -- recordUserFail: the count, 0 if the store fails
  unfoldable pub record_user_fail : ℕ → Text → S → ℕ × S
  record_user_fail now name s = elim (o.incr now (user_fail_key name) captcha_fail_window s) [
    | none ↦ (0, s)
    | some (n, t) ↦ (n, t)
  ]

  unfoldable pub clear_user_fail : Text → S → S
  clear_user_fail name s = o.del (user_fail_key name) s

  unfoldable pub clear_ip_fail : Text → S → S
  clear_ip_fail ip s = o.del (ip_fail_key ip) s

  -- recordIPFailAndMaybeBan
  unfoldable pub record_ip_fail : AuthHandler → ℕ → Text → AuthWorld S → AuthWorld S
  record_ip_fail h now ip w =
      if ip_ban_enabled h.config
      then elim (o.incr now (ip_fail_key ip) ip_ban_window w.kv) [
        | none ↦ w
        | some (n, t) ↦
            if ltz (pos n) (ip_ban_threshold h.config) then record w { kv = t } else record w {
              kv = clear_ip_fail ip t;
              ip_access = upsert_auto_ban now ip (ip_ban_duration h.config) w.ip_access;
            }
      ]
      else w

  -- middleware.MarkActive
  unfoldable pub mark_active : ℕ → Text → S → S
  mark_active now user_id s =
      if is_empty user_id
      then s
      else elim (o.set now (activity_key user_id) (number (unix now)) (pos (1_209_600 * second))
          s) [ none ↦ s | some t ↦ t ]
