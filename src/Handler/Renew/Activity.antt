-- ===== src/Handler/Renew/Activity.antt =====
-- Inactivity: what TouchActivity writes and what Refresh makes of it.
use one_auth.Base.{
  ℕ, ◌+◌, ◌-◌, ◌*◌, ◌≤◌, ◌≡◌, true, false, ◌&&◌, some, str, text_eq, is_empty, pos, ltz,
  is_positive, second, unix, arith,
}
use one_auth.Model.Payload.{number}
use one_auth.Store.{StoreOps, IsStore}
use one_auth.Handler.Login.{AuthHandler, activity_key}
use one_auth.Handler.Login.Counters.{mark_active}
use one_auth.Handler.Renew.{Served, session_timeout, last_active_at, touch_activity, is_timed_out}

abbrev two_weeks : ℕ
two_weeks = 1_209_600 * second

module _ {S : Type 0} (o : StoreOps S) (laws : IsStore o) (h : AuthHandler) where
  -- After a request of a user that succeeded and that the user caused, where the store takes the
  -- mark and there is a time limit, and for two weeks, Refresh counts the user as timed out exactly
  -- when more than the limit has passed since the second of that request.
  pub touch-is_timed_out :
      (now later : ℕ) (c : Served) (s t : S)
      → o.set now (activity_key c.user_id) (number (unix now)) (pos two_weeks) s ≡ some t
      → is_empty c.user_id ≡ false
      → (ltz (pos c.status) (pos 400) && text_eq c.user_action (str "1")) ≡ true
      → is_positive (session_timeout h.config) ≡ true
      → later ≤ now + two_weeks
      → is_timed_out o h later c.user_id (touch_activity o now c s)
        ≡ ltz (session_timeout h.config) (pos (later - unix now * second))
  unfolding is_timed_out touch_activity mark_active last_active_at
  touch-is_timed_out now later c s t e n a p before =
      let found =
        laws.get-set_live now later (activity_key c.user_id) (number (unix now)) (pos two_weeks) s t
          e (ground arith) before in
      ground (arith, found)
