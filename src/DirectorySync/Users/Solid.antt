-- ===== src/DirectorySync/Users/Solid.antt =====
-- Login names and addresses that are chosen are not blank and in no row.
use one_auth.Base.{
  ℕ, ◌<◌, ◌≡◌, refl, false, ◌||◌, some, List, [], ◌∷◌, ◌++◌, Text, str, text_eq, text_eq_refl,
  is_empty, length, arith, if_intro,
}
use one_auth.Model.User.{User}
use one_auth.LoginRule.{trim_space}
use one_auth.Handler.Env.{nil_uuid}
use one_auth.DirectorySync.Names.{all_bytes}
use one_auth.DirectorySync.Blank.{blank, blank-append, trim_space-blank, blank-trim}
use one_auth.DirectorySync.Unique.{Column, any_other, value_taken, itoa}
use one_auth.DirectorySync.Unique.Bytes.{
  IsClean, first_free-keeps, all_bytes-itoa_before, itoa_before-length,
}
use one_auth.DirectorySync.Email.{
  EmailConfig, Person, at_domain, sanitize_email_domain, generate_email, given_surname_local,
  fullname_local, numbered_email, before_first_at, from_first_at, raw_if_free, resolve_assign_email,
}

pub any_other-nil :
    (column : Column) (v id : Text) (us : List User)
    → any_other column v nil_uuid us ≡ false
    → any_other column v id us ≡ false
unfolding any_other
any_other-nil column v id [] h = refl
any_other-nil column v id (u ∷ us) h =
    ground (arith, any_other-nil column v id us, text_eq_refl nil_uuid)

-- A value that is not blank and not taken is in no row.
pub free-any_other :
    (column : Column) (v id : Text) (us : List User)
    → value_taken column v nil_uuid us ≡ false
    → blank v ≡ false
    → any_other column v id us ≡ false
unfolding value_taken
free-any_other column v id us h b =
    let same = trim_space-blank v in any_other-nil column v id us (ground arith)

pub clean-blank : (v : Text) → IsClean v → 0 < length v → blank v ≡ false
unfolding all_bytes
clean-blank [] h n = absurd (omega arith)
clean-blank (c ∷ v) h n = ground arith

pub itoa-blank : (i : ℕ) → blank (itoa i) ≡ false
unfolding all_bytes
itoa-blank i =
    clean-blank (itoa i) (all_bytes-itoa_before i i [] (omega arith) refl)
      (let long = itoa_before-length i i [] in omega arith)

-- Not blank if not empty
abbrev pub IsSolid : Text → Type 0
IsSolid s = is_empty s ≡ false → blank s ≡ false

pub IsSolid-nil : IsSolid []
unfolding is_empty
IsSolid-nil h = cc

pub IsSolid-at_domain : (domain local : Text) → IsSolid (at_domain domain local)
unfolding all_bytes
IsSolid-at_domain domain local =
    let whole = blank-append local (str "@" ++ domain) in
    if_intro IsSolid (is_empty local) (λ _. IsSolid-nil) (λ e h. ground (arith, whole))

pub IsSolid-generate_email : (cfg : EmailConfig) (p : Person) → IsSolid (generate_email cfg p)
unfolding generate_email
IsSolid-generate_email cfg p =
    let strategy = trim_space cfg.strategy in
    let domain = sanitize_email_domain cfg.domain in
    if_intro IsSolid (is_empty strategy || is_empty domain) (λ _. IsSolid-nil)
      (λ _.
        if_intro IsSolid (text_eq strategy (str "given_surname"))
          (λ _. IsSolid-at_domain domain (given_surname_local domain p))
          (λ _.
            if_intro IsSolid (text_eq strategy (str "fullname"))
              (λ _. IsSolid-at_domain domain (fullname_local domain p)) (λ _. IsSolid-nil)))

pub numbered_email-blank :
    (gen current : Text) (us : List User)
    → blank gen ≡ false
    → blank (numbered_email gen current us) ≡ false
unfolding numbered_email
numbered_email-blank gen current us h =
    first_free-keeps _ (λ v. blank v ≡ false)
      (λ i _. before_first_at gen ++ (itoa i ++ from_first_at gen))
      (λ i c k.
        let outer = blank-append (before_first_at gen) (itoa i ++ from_first_at gen) in
        let inner = blank-append (itoa i) (from_first_at gen) in
        let digits = itoa-blank i in ground (arith, outer, inner, digits))
      _ 2 gen h

pub raw_if_free-blank :
    (p : Person) (current : Text) (us : List User) (e : Text)
    → raw_if_free p current us ≡ some e
    → blank e ≡ false
raw_if_free-blank p current us e h =
    let same = trim_space-blank p.raw_email in
    let inner = blank-trim p.raw_email in ground (arith, same, inner)

pub resolve_assign_email-blank :
    (cfg : EmailConfig) (p : Person) (current : Text) (us : List User) (e : Text)
    → resolve_assign_email cfg p current us ≡ some e
    → blank e ≡ false
unfolding resolve_assign_email
resolve_assign_email-blank cfg p current us e h = ground (
  arith,
  raw_if_free-blank p current us e,
  IsSolid-generate_email cfg p,
  numbered_email-blank (generate_email cfg p) current us,
)
