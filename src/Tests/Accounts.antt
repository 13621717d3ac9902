-- ===== src/Tests/Accounts.antt =====
-- Accounts and addresses: one user with a lock, and one automatic ban.
use one_auth.Base.{
  ◌≡◌, refl, true, false, some, List, [], ◌∷◌, str, text_eq, pos, arith, reply, ne_of_first_byte,
}
use one_auth.Model.User.{User, get_by_id}
use one_auth.Account.{
  get_by_username, by_login_name, update, lapsed, unlock, find_login_user, authenticate,
  lock_account, lock_until, bad_credentials,
}
use one_auth.Account.Lock.{lock_ends}
use one_auth.IpAccess.{IpAccess, is_black_banned, upsert_auto_ban, no_manual, upsert_auto_ban_holds}
use one_auth.Tests.Data.{alice}

abbrev pub users : List User
users = alice ∷ []

abbrev locked_users : List User
locked_users = lock_account (some 10) (str "r") alice ∷ []

alice_found : by_login_name (str "alice") users ≡ some alice
unfolding by_login_name get_by_username text_eq
alice_found = refl

alice_by_id : get_by_id alice.id users ≡ some alice
unfolding get_by_id text_eq
alice_by_id = refl

alice_locks : lock_until alice.id (some 10) (str "r") users ≡ some locked_users
unfolding lock_until get_by_id update text_eq
alice_locks = refl

lock_ends_example :
    ((find_login_user 11 (str "alice") locked_users).0 ≡ some (unlock alice))
    × ((authenticate (λ h p. false) 11 (str "alice") (str "guess") locked_users).0
        ≡ reply bad_credentials)
unfolding lapsed
lock_ends_example =
    lock_ends (str "alice") alice users locked_users (some 10) (str "r") alice_found alice_by_id
      alice_locks refl 11 refl (λ h p. false) (str "guess") refl

-- An address with an automatic ban that ended at 5
abbrev old_ban : List IpAccess
old_ban =
    record { type = str "black"; ip = str "1.2.3.4"; expires_at = some 5; auto_ban = true } ∷ []

no_manual_entry : no_manual (str "1.2.3.4") old_ban ≡ true
unfolding no_manual text_eq
no_manual_entry = refl

upsert_auto_ban_holds_example :
    (is_black_banned 19 (str "1.2.3.4") (upsert_auto_ban 10 (str "1.2.3.4") (pos 10) old_ban)
      ≡ true)
    × (is_black_banned 19 (str "9.9.9.9") (upsert_auto_ban 10 (str "1.2.3.4") (pos 10) old_ban)
        ≡ is_black_banned 19 (str "9.9.9.9") old_ban)
upsert_auto_ban_holds_example =
    upsert_auto_ban_holds 10 19 (str "1.2.3.4") (pos 10) old_ban no_manual_entry (λ _. omega arith)
      (str "9.9.9.9") (ne_of_first_byte (str "9.9.9.9") (str "1.2.3.4") (omega arith))
