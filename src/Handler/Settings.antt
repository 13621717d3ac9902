-- ===== src/Handler/Settings.antt =====
-- The numbers of the security settings that internal/handler/auth_handler.go reads from rows of
-- text: strconv.Atoi, and each setting with its default.
use one_auth.Base.{
  ℕ, ◌+◌, ◌-◌, ◌*◌, ◌^◌, Bool, true, false, ◌&&◌, not, Option, none, some, [], ◌∷◌, Text, str,
  text_eq, if◌then◌else◌, ltb, leb, ◌==◌, ℤ, pos, is_positive, ltz, second, seconds, neg,
}

-- strconv.Atoi: a sign, then digits, in the range of int64
unfoldable pub digits_from : ℕ → Text → Option ℕ
digits_from n [] = some n
digits_from n (c ∷ s) =
    let rest = digits_from (n * 10 + (c - b'0')) s in
    if leb b'0' c && leb c b'9' then rest else none

abbrev pub in_int64 : Bool → Option ℕ → Option ℤ
in_int64 _ none = none
in_int64 true (some n) = if leb n (2 ^ 63) then some (neg n) else none
in_int64 false (some n) = if ltb n (2 ^ 63) then some (pos n) else none

unfoldable pub magnitude : Bool → Text → Option ℤ
magnitude negative [] = none
magnitude negative (c ∷ s) = in_int64 negative (digits_from 0 (c ∷ s))

unfoldable pub atoi : Text → Option ℤ
atoi [] = none
atoi (c ∷ s) =
    if c == b'-'
    then magnitude true s
    else if c == b'+'
    then magnitude false s
    else magnitude false (c ∷ s)

abbrev pub setting_or : (ℤ → Bool) → ℤ → Option ℤ → ℤ
setting_or ok default none = default
setting_or ok default (some n) = if ok n then n else default

abbrev pub is_natural : ℤ → Bool
is_natural n = not (ltz n (pos 0))

-- ConfigRepo.Get("security", key)
abbrev pub Config : Type 0
Config = Text → Text

unfoldable pub captcha_threshold : Config → ℤ
captcha_threshold cfg = setting_or is_natural (pos 3) (atoi (cfg (str "captcha_threshold")))

unfoldable pub login_lockout_threshold : Config → ℤ
login_lockout_threshold cfg =
    setting_or is_positive (pos 3) (atoi (cfg (str "login_lockout_threshold")))

abbrev pub duration_or : ℤ → Option ℤ → ℤ
duration_or default none = default
duration_or default (some n) = if is_natural n then seconds n else default

unfoldable pub login_lockout_duration : Config → ℤ
login_lockout_duration cfg =
    duration_or (pos (1800 * second)) (atoi (cfg (str "login_lockout_duration")))

unfoldable pub ip_ban_threshold : Config → ℤ
ip_ban_threshold cfg = setting_or is_positive (pos 20) (atoi (cfg (str "ip_ban_threshold")))

unfoldable pub ip_ban_duration : Config → ℤ
ip_ban_duration cfg = duration_or (pos (3600 * second)) (atoi (cfg (str "ip_ban_duration")))

unfoldable pub ip_ban_enabled : Config → Bool
ip_ban_enabled cfg = text_eq (cfg (str "ip_ban_enabled")) (str "true")
