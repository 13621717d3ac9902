-- ===== src/Handler/Cas/Validate.antt =====
-- A service ticket is used once, by the service that it was made for.
use one_auth.Base.{
  ℕ, ◌≡◌, inl, inr, Bool, true, false, ◌||◌, Option, none, some, Text, is_empty, arith,
  Option-cases,
}
use one_auth.Model.Payload.{CasTicket}
use one_auth.Model.User.{User, get_by_id}
use one_auth.Model.Client.{OAuth2Client, get_by_client_id}
use one_auth.Store.{StoreOps, IsStore}
use one_auth.Handler.Env.{Env, World}
use one_auth.Handler.Cas.{
  ticket_key, match_service, consume_ticket, invalid_ticket, success, CasAttributes, answer_for,
  validate, principal_of,
}

module _ {S : Type 0} (o : StoreOps S) (env : Env) where
  -- The ticket behind a success
  abbrev pub IsValidated : ℕ → Text → Text → Text → World S → Type 0
  IsValidated now ticket service principal w =
      (td : CasTicket) × (c : OAuth2Client) × (uid : Text) × (u : User) × ((consume_ticket o env now
          ticket w.kv).0
        ≡ some td)
      × (match_service td.service service ≡ true)
      × (get_by_client_id td.client_id env.clients ≡ some c)
      × (env.parse_uuid td.user_id ≡ some uid)
      × (get_by_id uid env.users ≡ some u)
      × (principal ≡ principal_of c.cas_user_attribute u)

  answer_for-success :
      (v3 : Bool) (service principal : Text) (attrs : Option CasAttributes) (td : CasTicket)
      → answer_for env v3 service td ≡ success principal attrs
      → (c : OAuth2Client) × (uid : Text) × (u : User) × (match_service td.service service ≡ true)
        × (get_by_client_id td.client_id env.clients ≡ some c)
        × (env.parse_uuid td.user_id ≡ some uid)
        × (get_by_id uid env.users ≡ some u)
        × (principal ≡ principal_of c.cas_user_attribute u)
  unfolding answer_for
  answer_for-success v3 service principal attrs td e =
      elim (Option-cases (get_by_client_id td.client_id env.clients)) [
        | inl n ↦ absurd (ground arith)
        | inr (c, k) ↦ elim (Option-cases (env.parse_uuid td.user_id)) [
          | inl n ↦ absurd (ground arith)
          | inr (uid, i) ↦ elim (Option-cases (get_by_id uid env.users)) [
            | inl n ↦ absurd (ground arith)
            | inr (u, x) ↦ (c, uid, u, ground arith, k, i, x, ground arith)
          ]
        ]
      ]

  validate-IsValidated :
      (now : ℕ) (v3 : Bool) (ticket service principal : Text) (attrs : Option CasAttributes)
      (w : World S)
      → (validate o env now v3 ticket service w).0 ≡ success principal attrs
      → IsValidated now ticket service principal w
  unfolding validate
  validate-IsValidated now v3 ticket service principal attrs w e =
      elim (Option-cases (consume_ticket o env now ticket w.kv).0) [
        | inl n ↦ absurd (ground arith)
        | inr (td, k) ↦
            let (c, uid, u, m, i, p, x, q) =
              answer_for-success v3 service principal attrs td (ground arith) in
            (td, c, uid, u, k, m, i, p, x, q)
      ]

  consumed :
      IsStore o
      → (now later : ℕ) (ticket : Text) (td : CasTicket) (s : S)
      → (consume_ticket o env now ticket s).0 ≡ some td
      → (consume_ticket o env later ticket (consume_ticket o env now ticket s).1).0 ≡ none
  unfolding consume_ticket
  consumed laws now later ticket td s e = elim (Option-cases (o.get now (ticket_key ticket) s)) [
    | inl n ↦ absurd (ground arith)
    | inr (b, k) ↦ let gone = laws.get-del_self later (ticket_key ticket) s in ground (arith, gone)
  ]

  validate-kv :
      (now : ℕ) (v3 : Bool) (ticket service : Text) (w : World S)
      → (is_empty ticket || is_empty service) ≡ false
      → (validate o env now v3 ticket service w).1.kv ≡ (consume_ticket o env now ticket w.kv).1
  unfolding validate
  validate-kv now v3 ticket service w e = ground arith

  validate-gone :
      (now : ℕ) (v3 : Bool) (ticket service : Text) (w : World S)
      → (is_empty ticket || is_empty service) ≡ false
      → (consume_ticket o env now ticket w.kv).0 ≡ none
      → (validate o env now v3 ticket service w).0 ≡ invalid_ticket
  unfolding validate
  validate-gone now v3 ticket service w e g = ground arith

  success-non_empty :
      (now : ℕ) (v3 : Bool) (ticket service principal : Text) (attrs : Option CasAttributes)
      (w : World S)
      → (validate o env now v3 ticket service w).0 ≡ success principal attrs
      → (is_empty ticket ≡ false) × (is_empty service ≡ false)
  unfolding validate
  success-non_empty now v3 ticket service principal attrs w e = (ground arith, ground arith)

  -- A ticket that validates was in the store, made for the service that asks, up to slashes at the
  -- end, for an application and a user that there are, and names that user. Afterwards it is invalid
  -- at any instant, for every service, in any state with that store.
  pub validate_once :
      IsStore o
      → (now : ℕ) (v3 : Bool) (ticket service principal : Text) (attrs : Option CasAttributes)
        (w : World S)
      → (validate o env now v3 ticket service w).0 ≡ success principal attrs
      → (later : ℕ) (v3' : Bool) (service' : Text) (w' : World S) → is_empty service' ≡ false
      → w'.kv ≡ (validate o env now v3 ticket service w).1.kv
      → IsValidated now ticket service principal w
        × ((validate o env later v3' ticket service' w').0 ≡ invalid_ticket)
  validate_once laws now v3 ticket service principal attrs w e later v3' service' w' some_service
        same =
      let valid = validate-IsValidated now v3 ticket service principal attrs w e in
      let (td, c, uid, u, k, m, i, p, x, q) = valid in
      let (t, asked) = success-non_empty now v3 ticket service principal attrs w e in
      let gone = consumed laws now later ticket td w.kv k in
      let kv = validate-kv now v3 ticket service w (ground arith) in
      (valid, validate-gone later v3' ticket service' w' (ground arith) (rw (same, kv) gone))
