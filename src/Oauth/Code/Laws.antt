-- ===== src/Oauth/Code/Laws.antt =====
-- The life of an authorization code, over any store that keeps the laws.
use one_auth.Base.{
  ℕ, ◌+◌, ◌≤◌, ◌<◌, ◌≡◌, true, none, some, Text, text_eq, ℤ, is_positive, pos_part, unix, arith,
  if◌then◌else◌,
}
use one_auth.Model.Payload.{AuthCodeData, auth_code}
use one_auth.Store.{StoreOps, IsStore}
use one_auth.Oauth.Code.{
  code_key, fetched, refused, not_found, client_mismatch, save, fetch, delete,
}

-- The stored form of a code, stamped with the time of Save.
abbrev pub stamped : ℕ → AuthCodeData → AuthCodeData
stamped now d = record d { created_at = unix now }

module _ {S : Type 0} (o : StoreOps S) (laws : IsStore o) where
  -- A saved code reads back, for its client alone, until its time runs out.
  pub fetch-save :
      (now later : ℕ) (ttl : ℤ) (d : AuthCodeData) (client_id : Text) (s t : S)
      → save o now ttl d s ≡ some t
      → is_positive ttl ≡ true
      → (later ≤ now + pos_part ttl
          → fetch o later d.code client_id t ≡ (
              if text_eq d.client_id client_id
              then fetched (stamped now d)
              else refused client_mismatch))
        × (now + pos_part ttl < later → fetch o later d.code client_id t ≡ refused not_found)
  unfolding save fetch
  fetch-save now later ttl d client_id s t e p = (
    λ h. ground (
      arith,
      laws.get-set_live now later (code_key d.code) (auth_code (stamped now d)) ttl s t e p h,
    ),
    λ h. ground (
      arith,
      laws.get-set_expired now later (code_key d.code) (auth_code (stamped now d)) ttl s t e p h,
    ),
  )

  pub fetch-delete :
      (now : ℕ) (code client_id : Text) (s : S)
      → fetch o now code client_id (delete o code s) ≡ refused not_found
  unfolding fetch delete
  fetch-delete now code client_id s = ground (arith, laws.get-del_self now (code_key code) s)

pub fetch-missing :
    {S : Type 0} (o : StoreOps S) (now : ℕ) (code client_id : Text) (s : S)
    → o.get now (code_key code) s ≡ none
    → fetch o now code client_id s ≡ refused not_found
unfolding fetch
fetch-missing o now code client_id s h = ground arith
