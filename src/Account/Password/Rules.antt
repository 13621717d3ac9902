-- ===== src/Account/Password/Rules.antt =====
-- The password policy against its description: long enough, and of each kind that is required.
use one_auth.Base.{
  ℕ, ◌≡◌, ◌↔◌, Bool, true, false, not, ◌&&◌, ◌||◌, none, List, [], ◌∷◌, Text, length, pos, ltz,
  arith,
}
use one_auth.Handler.Settings.{Config}
use one_auth.Account.Password.{
  Unicode, Policy, password_policy, Seen, nothing_seen, see, see_all, CharKind, upper, lower, digit,
  special, missing, validate_password_policy,
}

module _ (u : Unicode) where
  -- The kind of a rune: a letter of both cases is an upper one, and so on.
  abbrev pub is_kind : CharKind → ℕ → Bool
  is_kind upper r = u.is_upper r
  is_kind lower r = not (u.is_upper r) && u.is_lower r
  is_kind digit r = not (u.is_upper r) && (not (u.is_lower r) && u.is_digit r)
  is_kind special r =
      not (u.is_upper r) && (not (u.is_lower r) && (not (u.is_digit r) && u.is_special r))

  unfoldable pub occurs : CharKind → List ℕ → Bool
  occurs k [] = false
  occurs k (r ∷ rs) = is_kind k r || occurs k rs

  see_all-has_upper :
      (rs : List ℕ) (s : Seen) → (see_all u rs s).has_upper ≡ (s.has_upper || occurs upper rs)
  unfolding see_all see occurs
  see_all-has_upper [] s = ground arith
  see_all-has_upper (r ∷ rs) s = ground (arith, see_all-has_upper rs (see u r s))

  see_all-has_lower :
      (rs : List ℕ) (s : Seen) → (see_all u rs s).has_lower ≡ (s.has_lower || occurs lower rs)
  unfolding see_all see occurs
  see_all-has_lower [] s = ground arith
  see_all-has_lower (r ∷ rs) s = ground (arith, see_all-has_lower rs (see u r s))

  see_all-has_digit :
      (rs : List ℕ) (s : Seen) → (see_all u rs s).has_digit ≡ (s.has_digit || occurs digit rs)
  unfolding see_all see occurs
  see_all-has_digit [] s = ground arith
  see_all-has_digit (r ∷ rs) s = ground (arith, see_all-has_digit rs (see u r s))

  see_all-has_special :
      (rs : List ℕ) (s : Seen) → (see_all u rs s).has_special ≡ (s.has_special || occurs special rs)
  unfolding see_all see occurs
  see_all-has_special [] s = ground arith
  see_all-has_special (r ∷ rs) s = ground (arith, see_all-has_special rs (see u r s))

  -- A kind that is not required, or that occurs
  abbrev pub is_met : Bool → CharKind → List ℕ → Bool
  is_met require k rs = not require || occurs k rs

  abbrev pub meets_policy : Policy → Text → Bool
  meets_policy p t =
      not (ltz (pos (length t)) p.min_len)
      && (is_met p.require_upper upper (u.runes t)
          && (is_met p.require_lower lower (u.runes t)
              && (is_met p.require_digit digit (u.runes t)
                  && is_met p.require_special special (u.runes t))))

  -- A password passes exactly when it has at least the configured number of bytes and, of each kind
  -- of character that the configuration requires, at least one.
  pub validate_password_policy_iff :
      (cfg : Config) (p : Text)
      → (validate_password_policy u cfg p ≡ none) ↔ (meets_policy (password_policy cfg) p ≡ true)
  unfolding validate_password_policy missing
  validate_password_policy_iff cfg p = ground (
    arith,
    see_all-has_upper (u.runes p) nothing_seen,
    see_all-has_lower (u.runes p) nothing_seen,
    see_all-has_digit (u.runes p) nothing_seen,
    see_all-has_special (u.runes p) nothing_seen,
  )
