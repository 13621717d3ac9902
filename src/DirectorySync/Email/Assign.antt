-- ===== src/DirectorySync/Email/Assign.antt =====
-- The address that a user gets is free, and the one that the preview shows where that is.
use one_auth.Base.{
  suc, ◌≡◌, refl, ap, sym, ◌∙◌, true, false, none, some, List, [], ◌∷◌, ◌++◌, Text, is_empty,
  length, arith, if◌then◌else◌,
}
use one_auth.Model.User.{User}
use one_auth.DirectorySync.Unique.{value_taken, email_of, first_free, itoa}
use one_auth.DirectorySync.Unique.Names.{ends_number, first_free-between}
use one_auth.DirectorySync.Email.{
  EmailConfig, Person, before_first_at, from_first_at, numbered_email, generate_email,
  resolve_preview_email, resolve_assign_email,
}

split_at_first : (s : Text) → before_first_at s ++ from_first_at s ≡ s
unfolding before_first_at from_first_at
split_at_first [] = refl
split_at_first (c ∷ s) = ground (arith, split_at_first s)

from_first_at-ends : (s : Text) → ends_number (from_first_at s) ≡ true
unfolding from_first_at ends_number
from_first_at-ends [] = refl
from_first_at-ends (c ∷ s) = ground (arith, from_first_at-ends s)

numbered_email-is_free :
    (gen current : Text) (us : List User)
    → value_taken email_of (numbered_email gen current us) current us ≡ false
unfolding numbered_email
numbered_email-is_free gen current us =
    let free =
      first_free-between email_of current us (before_first_at gen) (from_first_at gen)
        (from_first_at-ends gen) in
    ap
      (λ c.
        value_taken email_of
          (first_free (suc (length us)) (λ v. value_taken email_of v current us)
            (λ i _. before_first_at gen ++ (itoa i ++ from_first_at gen)) 2 c)
          current us)
      (sym (split_at_first gen))
    ∙ free

numbered_email-same :
    (gen current : Text) (us : List User)
    → value_taken email_of gen current us ≡ false
    → numbered_email gen current us ≡ gen
unfolding numbered_email first_free
numbered_email-same gen current us h = rw (h) refl

-- The address that a user gets is one that no other user has, and it is the address that the preview
-- shows, if it shows one, whenever no other user has that one.
pub resolve_assign_email-preview :
    (cfg : EmailConfig) (p : Person) (current : Text) (us : List User)
    → ((e : Text)
        → resolve_assign_email cfg p current us ≡ some e
        → value_taken email_of e current us ≡ false)
      × (value_taken email_of (resolve_preview_email cfg p) current us ≡ false
          → resolve_assign_email cfg p current us ≡ (
              if is_empty (resolve_preview_email cfg p)
              then none
              else some (resolve_preview_email cfg p)))
unfolding resolve_assign_email resolve_preview_email
resolve_assign_email-preview cfg p current us = (
  (λ e h. ground (arith, numbered_email-is_free (generate_email cfg p) current us)),
  (λ h. ground (arith, numbered_email-same (generate_email cfg p) current us)),
)
