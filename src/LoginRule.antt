-- ===== src/LoginRule.antt =====
-- internal/repository/loginrule_repo.go and internal/model/login_rule.go: which login is let in.
-- Package net is a parameter: the bytes of an address in its 16-byte form, and the test of a CIDR
-- block. An instant is given by its weekday, Sunday first, and its hour.
pub mod Order
pub mod Mask
use one_auth.Base.{
  ℕ, zero, suc, ◌+◌, ◌-◌, ◌*◌, Bool, true, false, not, ◌&&◌, ◌||◌, Option, none, some, List, [],
  ◌∷◌, reverse, ℤ, ltz, Text, str, text_eq, is_empty, contains, drop_while, if◌then◌else◌, ltb, leb,
  ◌==◌,
}

pub record LoginRule : Type 0 where
  pub name : Text
  pub priority : ℤ
  pub enabled : Bool
  pub user_scope : Text
  pub user_ids : List Text
  pub ips : List Text
  pub time_mask : Text
  pub action : Text
  pub created_at : ℕ

pub record NetOps : Type 0 where
  pub parse_ip : Text → Option Text
  pub parse_cidr : Text → Option (Text → Bool)

pub record Instant : Type 0 where
  pub weekday : ℕ
  pub hour : ℕ

abbrev pub nil_uuid : Text
nil_uuid = str "00000000-0000-0000-0000-000000000000"

unfoldable pub member : Text → List Text → Bool
member uid [] = false
member uid (u ∷ us) = text_eq u uid || member uid us

-- strings.TrimSpace, on ASCII
abbrev pub is_space : ℕ → Bool
is_space c = (leb 9 c && leb c 13) || c == 32

unfoldable pub trim_space : Text → Text
trim_space s = reverse (drop_while is_space (reverse (drop_while is_space s)))

-- strings.SplitN(entry, "-", 2), for an entry with a '-'
unfoldable pub before_dash : Text → Text
before_dash [] = []
before_dash (c ∷ s) = let rest = before_dash s in if c == b'-' then [] else c ∷ rest

unfoldable pub after_dash : Text → Text
after_dash [] = []
after_dash (c ∷ s) = let rest = after_dash s in if c == b'-' then s else rest

-- string(s) <= string(t), by bytes
unfoldable pub text_le : Text → Text → Bool
text_le [] t = true
text_le (c ∷ s) [] = false
text_le (c ∷ s) (d ∷ t) = let rest = text_le s t in if c == d then rest else ltb c d

-- bytesBetween, on addresses that were parsed
unfoldable pub in_range : Option Text → Option Text → Option Text → Bool
in_range (some t) (some lo) (some hi) = text_le lo t && text_le t hi
in_range _ _ _ = false

unfoldable pub cidr_holds : Option (Text → Bool) → Option Text → Bool
cidr_holds (some block) (some t) = block t
cidr_holds _ _ = false

-- One entry of the list, after TrimSpace
unfoldable pub match_entry : NetOps → Text → Text → Bool
match_entry net ip entry =
    if text_eq entry (str "*") || is_empty entry
    then true
    else if contains entry (str "/")
    then cidr_holds (net.parse_cidr entry) (net.parse_ip ip)
    else if contains entry (str "-")
    then in_range (net.parse_ip ip) (net.parse_ip (trim_space (before_dash entry)))
        (net.parse_ip (trim_space (after_dash entry)))
    else text_eq entry ip

unfoldable pub match_any : NetOps → Text → List Text → Bool
match_any net ip [] = false
match_any net ip (e ∷ es) = match_entry net ip (trim_space e) || match_any net ip es

unfoldable pub match_ips : NetOps → List Text → Text → Bool
match_ips net [] ip = true
match_ips net (e ∷ es) ip = match_any net ip (e ∷ es)

-- Monday is 0 and Sunday 6.
unfoldable pub slot : Instant → ℕ
slot t = (if t.weekday == 0 then 6 else t.weekday - 1) * 24 + t.hour

-- mask[idx] == '1', and false past the end
unfoldable pub bit_at : Text → ℕ → Bool
bit_at [] i = false
bit_at (c ∷ s) zero = c == b'1'
bit_at (c ∷ s) (suc i) = bit_at s i

unfoldable pub match_time_mask : Text → Instant → Bool
match_time_mask mask t =
    if is_empty mask
    then true
    else if not (contains mask (str "1"))
    then true
    else bit_at mask (slot t)

unfoldable pub match_user : LoginRule → Text → Bool
match_user r uid =
    if text_eq r.user_scope (str "specific")
    then not (text_eq uid nil_uuid) && member uid r.user_ids
    else true

unfoldable pub rule_matches : NetOps → LoginRule → Text → Text → Instant → Bool
rule_matches net r uid ip t =
    match_user r uid && (match_ips net r.ips ip && match_time_mask r.time_mask t)

-- ORDER BY priority ASC, created_at ASC
unfoldable pub comes_first : LoginRule → LoginRule → Bool
comes_first r s =
    if ltz r.priority s.priority
    then true
    else if ltz s.priority r.priority
    then false
    else leb r.created_at s.created_at

unfoldable pub insert_rule : LoginRule → List LoginRule → List LoginRule
insert_rule r [] = r ∷ []
insert_rule r (s ∷ ss) =
    let rest = insert_rule r ss in if comes_first r s then r ∷ s ∷ ss else s ∷ rest

-- WHERE enabled = true
unfoldable pub enabled_in_order : List LoginRule → List LoginRule
enabled_in_order [] = []
enabled_in_order (r ∷ rs) =
    let rest = enabled_in_order rs in if r.enabled then insert_rule r rest else rest

unfoldable pub first_match : NetOps → List LoginRule → Text → Text → Instant → Option LoginRule
first_match net [] uid ip t = none
first_match net (r ∷ rs) uid ip t =
    let rest = first_match net rs uid ip t in if rule_matches net r uid ip t then some r else rest

abbrev pub verdict : Option LoginRule → Bool
verdict none = true
verdict (some r) = text_eq r.action (str "accept")

-- LoginRuleRepository.Evaluate; a failing query lets in, and is not modelled.
unfoldable pub evaluate : NetOps → List LoginRule → Text → Text → Instant → Bool × Option LoginRule
evaluate net rules uid ip t =
    let hit = first_match net (enabled_in_order rules) uid ip t in (verdict hit, hit)
