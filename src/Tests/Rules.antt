-- ===== src/Tests/Rules.antt =====
-- Login rules: a table of three, one of them off.
use one_auth.Base.{
  ◌≡◌, true, false, refl, none, some, [], ◌∷◌, List, str, text_eq, is_empty, contains, has_prefix,
  drop_while, pos,
}
use one_auth.LoginRule.{
  LoginRule, NetOps, Instant, evaluate, nil_uuid, enabled_in_order, insert_rule, comes_first,
  first_match, rule_matches, match_user, match_ips, match_any, match_entry, match_time_mask,
  trim_space,
}
use one_auth.LoginRule.Order.{Decided, evaluate-Decided}

abbrev no_net : NetOps
no_net = record { parse_ip = λ _. none; parse_cidr = λ _. none }

abbrev noon : Instant
noon = record { weekday = 0; hour = 12 }

abbrev night : Instant
night = record { weekday = 6; hour = 23 }

abbrev deny_all : LoginRule
deny_all = record {
  name = str "all";
  priority = pos 50;
  enabled = true;
  user_scope = str "all";
  user_ids = [];
  ips = str "*" ∷ [];
  time_mask = [];
  action = str "deny";
  created_at = 3;
}

abbrev accept_office : LoginRule
accept_office = record deny_all {
  name = str "office";
  priority = pos 10;
  ips = str "10.0.0.1" ∷ [];
  action = str "accept";
}

abbrev first_but_off : LoginRule
first_but_off = record deny_all { name = str "off"; priority = pos 1; enabled = false }

abbrev table : List LoginRule
table = deny_all ∷ first_but_off ∷ accept_office ∷ []

evaluate-Decided_example :
    Decided no_net nil_uuid
      (str "10.0.0.1")
      noon
      table
      (evaluate no_net table nil_uuid (str "10.0.0.1") noon)
evaluate-Decided_example = evaluate-Decided no_net nil_uuid (str "10.0.0.1") noon table

from_office : evaluate no_net table nil_uuid (str "10.0.0.1") noon ≡ (true, some accept_office)
unfolding evaluate enabled_in_order insert_rule comes_first first_match rule_matches match_user
    match_ips match_any match_entry match_time_mask trim_space text_eq is_empty contains has_prefix
    drop_while
from_office = refl
