-- ===== src/Oauth/Code.antt =====
-- internal/oauth/authcode.go: AuthCodeStore. The random code is an argument of what draws it.
pub mod Laws
use one_auth.Base.{
  ℕ, ◌≡◌, refl, ◌⊎◌, inl, inr, ◌++◌, Option, none, some, Text, str, text_eq, ℤ, unix, if◌then◌else◌,
}
use one_auth.Model.Payload.{AuthCodeData, auth_code, as_auth_code}
use one_auth.Store.{StoreOps}

abbrev pub code_key : Text → Text
code_key code = str "auth_code:" ++ code

-- Why `Get` fails: both texts go to the client as the error's description.
pub data CodeError : Type 0 where
  not_found malformed client_mismatch : CodeError

pub data Fetched : Type 0 where
  fetched : AuthCodeData → Fetched
  refused : CodeError → Fetched

pub Fetched-cases :
    (f : Fetched) → ((e : CodeError) × (f ≡ refused e)) ⊎ ((d : AuthCodeData) × (f ≡ fetched d))
Fetched-cases (fetched d) = inr (d, refl)
Fetched-cases (refused e) = inl (e, refl)

module _ {S : Type 0} (o : StoreOps S) where
  -- AuthCodeStore.Save
  unfoldable pub save : ℕ → ℤ → AuthCodeData → S → Option S
  save now ttl d s =
      o.set now (code_key d.code) (auth_code (record d { created_at = unix now })) ttl s

  -- AuthCodeStore.Get
  unfoldable pub fetch : ℕ → Text → Text → S → Fetched
  fetch now code client_id s = elim (o.get now (code_key code) s) [
    | none ↦ refused not_found
    | some b ↦ elim (as_auth_code b) [
      | none ↦ refused malformed
      | some d ↦ if text_eq d.client_id client_id then fetched d else refused client_mismatch
    ]
  ]

  -- AuthCodeStore.Delete
  unfoldable pub delete : Text → S → S
  delete code s = o.del (code_key code) s
