-- ===== src/IpAccess.antt =====
-- internal/repository/misc_repo.go, IPAccessRepository: the black list of addresses that a login is
-- checked against, and the automatic ban. Rows stand in the order of their keys; notes are left out.
use one_auth.Base.{
  ℕ, ◌≡◌, ◌≢◌, ◌<◌, refl, Bool, true, false, ◌&&◌, ◌||◌, Option, none, some, List, [], ◌∷◌, Text,
  str, text_eq, text_eq_refl, text_eq_sound, text_eq_ne, Bool-cases, inl, inr, lt→ltb, sym, ◌∙◌,
  if◌then◌else◌, ltb, ℤ, is_positive, add_duration, arith,
}

pub record IpAccess : Type 0 where
  pub type : Text
  pub ip : Text
  pub expires_at : Option ℕ
  pub auto_ban : Bool

abbrev is_black : Text → IpAccess → Bool
is_black ip e = text_eq e.type (str "black") && text_eq e.ip ip

-- expires_at IS NULL OR expires_at > now
abbrev in_force_at : ℕ → Option ℕ → Bool
in_force_at now none = true
in_force_at now (some t) = ltb now t

unfoldable pub is_black_banned : ℕ → Text → List IpAccess → Bool
is_black_banned now ip [] = false
is_black_banned now ip (e ∷ es) =
    (is_black ip e && in_force_at now e.expires_at) || is_black_banned now ip es

abbrev ban_end : ℕ → ℤ → Option ℕ
ban_end now d = if is_positive d then some (add_duration now d) else none

-- UpsertAutoBan: the first entry of the address, unless it was made by hand, or a new one
unfoldable pub upsert_auto_ban : ℕ → Text → ℤ → List IpAccess → List IpAccess
upsert_auto_ban now ip d [] =
    record { type = str "black"; ip = ip; expires_at = ban_end now d; auto_ban = true } ∷ []
upsert_auto_ban now ip d (e ∷ es) =
    let rest = upsert_auto_ban now ip d es in
    if is_black ip e
    then (if e.auto_ban then record e { expires_at = ban_end now d } ∷ es else e ∷ es)
    else e ∷ rest

-- No entry of the address was made by hand.
unfoldable pub no_manual : Text → List IpAccess → Bool
no_manual ip [] = true
no_manual ip (e ∷ es) = (if is_black ip e then e.auto_ban else true) && no_manual ip es

abbrev not_in_force : ℕ → Option ℕ → Bool
not_in_force now none = false
not_in_force now (some t) = if ltb now t then false else true

-- PurgeExpiredAutoBans
unfoldable pub purge_expired_auto_bans : ℕ → List IpAccess → List IpAccess
purge_expired_auto_bans now [] = []
purge_expired_auto_bans now (e ∷ es) =
    let rest = purge_expired_auto_bans now es in
    if e.auto_ban && not_in_force now e.expires_at then rest else e ∷ rest

ban_end-in_force_at :
    (now later : ℕ) (d : ℤ)
    → (is_positive d ≡ true → later < add_duration now d)
    → in_force_at later (ban_end now d) ≡ true
ban_end-in_force_at now later d h = elim (Bool-cases (is_positive d)) [
  | inl p ↦ rw (p) (lt→ltb later (add_duration now d) (h p))
  | inr p ↦ rw (p) refl
]

is_black-other :
    (ip other : Text) (e : IpAccess) → other ≢ ip → is_black ip e ≡ true → is_black other e ≡ false
is_black-other ip other e n h = ground (
  arith,
  text_eq_sound e.ip ip,
  text_eq_sound e.ip other,
  λ (p : e.ip ≡ other) (q : e.ip ≡ ip). n (sym p ∙ q),
)

ban_refuses :
    (now later : ℕ) (ip : Text) (d : ℤ) (es : List IpAccess)
    → no_manual ip es ≡ true
    → in_force_at later (ban_end now d) ≡ true
    → is_black_banned later ip (upsert_auto_ban now ip d es) ≡ true
unfolding is_black_banned upsert_auto_ban no_manual
ban_refuses now later ip d [] m h = ground (arith, text_eq_refl ip, text_eq_refl (str "black"), h)
ban_refuses now later ip d (e ∷ es) m h = ground (arith, ban_refuses now later ip d es)

ban_others :
    (now later : ℕ) (ip other : Text) (d : ℤ) (es : List IpAccess)
    → other ≢ ip
    → is_black_banned later other (upsert_auto_ban now ip d es) ≡ is_black_banned later other es
unfolding is_black_banned upsert_auto_ban
ban_others now later ip other d [] n = ground (arith, text_eq_ne ip other (λ p. n (sym p)))
ban_others now later ip other d (e ∷ es) n =
    ground (arith, is_black-other ip other e n, ban_others now later ip other d es n)

-- An automatic ban of an address without an entry made by hand refuses it until the ban ends, and
-- for ever if the duration is not positive; no other address is refused or let in by it.
pub upsert_auto_ban_holds :
    (now later : ℕ) (ip : Text) (d : ℤ) (es : List IpAccess)
    → no_manual ip es ≡ true
    → (is_positive d ≡ true → later < add_duration now d)
    → (other : Text) → other ≢ ip
    → (is_black_banned later ip (upsert_auto_ban now ip d es) ≡ true)
      × (is_black_banned later other (upsert_auto_ban now ip d es) ≡ is_black_banned later other es)
upsert_auto_ban_holds now later ip d es m h other n = (
  ban_refuses now later ip d es m (ban_end-in_force_at now later d h),
  ban_others now later ip other d es n,
)

-- Taking out what has expired changes no answer, now or later.
pub purge-is_black_banned :
    (now later : ℕ) (ip : Text) (es : List IpAccess)
    → now < later
    → is_black_banned later ip (purge_expired_auto_bans now es) ≡ is_black_banned later ip es
unfolding is_black_banned purge_expired_auto_bans
purge-is_black_banned now later ip [] h = refl
purge-is_black_banned now later ip (e ∷ es) h =
    ground (arith, purge-is_black_banned now later ip es h)
