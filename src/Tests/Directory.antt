-- ===== src/Tests/Directory.antt =====
-- A directory that knows alice and Zhong Ya, who is new.
use one_auth.Base.{
  ◌≡◌, refl, false, none, some, [], ◌∷◌, Text, str, text_eq, is_empty, has_prefix, drop_while,
  contains, if◌then◌else◌,
}
use one_auth.LoginRule.{trim_space}
use one_auth.Account.Ldap.{to_lower}
use one_auth.Handler.Env.{nil_uuid}
use one_auth.DirectorySync.Names.{
  keep, trim, all_bytes, is_latin, sanitize_username, pinyin_base, normalize_username_base,
}
use one_auth.DirectorySync.Unique.{
  any_other, value_taken, email_of, itoa_before, first_free, generate_username,
  resolve_import_username,
}
use one_auth.DirectorySync.Unique.Bytes.{IsFresh, resolve_import_username-IsFresh}
use one_auth.DirectorySync.Email.{EmailConfig, Person, resolve_assign_email, resolve_preview_email}
use one_auth.DirectorySync.Email.Assign.{resolve_assign_email-preview}
use one_auth.DirectorySync.Paths.{trim_slashes, parent_path, leaf_name, halve, collapse}
use one_auth.DirectorySync.Paths.Normal.{IsNormal, child_path, trim_slashes-child_path}
use one_auth.DirectorySync.State.{Buffer}
use one_auth.DirectorySync.Conflict.{ImportState}
use one_auth.Tests.Accounts.{users}

resolve_import_username-IsFresh_example :
    IsFresh nil_uuid users (resolve_import_username [] (str "Alice") [] nil_uuid [] users)
resolve_import_username-IsFresh_example =
    resolve_import_username-IsFresh [] (str "Alice") [] nil_uuid [] users

-- alice is taken, so that a second number follows.
second_alice : resolve_import_username [] (str "Alice") [] nil_uuid [] users ≡ str "alice2"
unfolding resolve_import_username sanitize_username keep trim to_lower trim_space drop_while
    is_empty generate_username normalize_username_base pinyin_base is_latin all_bytes text_eq
    first_free value_taken any_other itoa_before
second_alice = refl

abbrev by_full_name : EmailConfig
by_full_name = record { strategy = str "fullname"; domain = str "example.com" }

abbrev alice_again : Person
alice_again = record {
  source_username = str "Alice";
  nickname = [];
  given_name = [];
  surname = [];
  raw_email = [];
}

resolve_assign_email-preview_example :
    ((e : Text)
      → resolve_assign_email by_full_name alice_again nil_uuid users ≡ some e
      → value_taken email_of e nil_uuid users ≡ false)
    × (value_taken email_of (resolve_preview_email by_full_name alice_again) nil_uuid users ≡ false
        → resolve_assign_email by_full_name alice_again nil_uuid users ≡ (
            if is_empty (resolve_preview_email by_full_name alice_again)
            then none
            else some (resolve_preview_email by_full_name alice_again)))
resolve_assign_email-preview_example =
    resolve_assign_email-preview by_full_name alice_again nil_uuid users

trim_slashes-child_path_example :
    IsNormal (trim_slashes (str " /a///b/ "))
    × (child_path (parent_path (str " /a///b/ ")) (leaf_name (str " /a///b/ "))
        ≡ trim_slashes (str " /a///b/ "))
trim_slashes-child_path_example = trim_slashes-child_path (str " /a///b/ ")

trimmed : trim_slashes (str " /a///b/ ") ≡ str "a/b"
unfolding trim_slashes trim trim_space drop_while halve collapse contains has_prefix
trimmed = refl

abbrev buffer : Buffer
buffer = record {
  id = str "b1";
  provider = str "wecom";
  external_id = str "ZhongYa";
  username = str "zhongya";
  email = [];
  username_edited = [];
  email_edited = [];
  exists = false;
}

abbrev import_state : ImportState
import_state = record { users = users; bindings = []; buffers = buffer ∷ [] }
