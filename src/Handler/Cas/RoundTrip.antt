-- ===== src/Handler/Cas/RoundTrip.antt =====
-- From the login to the validation of the ticket, and which applications are found for a service.
use one_auth.Base.{
  ℕ, ◌+◌, ◌≤◌, ◌≡◌, refl, ◌∙◌, inl, inr, Bool, true, false, ◌&&◌, ◌||◌, none, some, List, [], ◌∷◌,
  Text, str, is_empty, text_eq_iff, pos_part, is_positive, arith, if◌then◌else◌, Option-cases, next,
}
use one_auth.Model.Payload.{SessionData, cas_ticket, as_cas_ticket}
use one_auth.Model.User.{User, get_by_id}
use one_auth.Model.Client.{OAuth2Client, get_by_client_id}
use one_auth.Store.{StoreOps, IsStore}
use one_auth.Handler.Env.{Env, World, Fresh, Request, query, current_session}
use one_auth.Handler.Cas.{
  ticket_key, new_st, match_service, find_by_cas_service, find_matching, find_client_by_service,
  cas_gate, cas_ttl, principal_of, to_service, success, attributes_of, answer_for, save_ticket,
  consume_ticket, validate, service_url, ticket_for, issue_ticket, with_session, login,
}

find_by_cas_service-is_active :
    (svc : Text) (cs : List OAuth2Client) (c : OAuth2Client)
    → find_by_cas_service svc cs ≡ some c
    → (c.is_active ≡ true) × (c.protocol ≡ str "cas")
unfolding find_by_cas_service
find_by_cas_service-is_active svc [] c h = cc
find_by_cas_service-is_active svc (x ∷ cs) c h =
    ground (arith, find_by_cas_service-is_active svc cs c, text_eq_iff x.protocol (str "cas"))

find_matching-is_active :
    (svc : Text) (cs : List OAuth2Client) (c : OAuth2Client)
    → find_matching svc cs ≡ some c
    → (c.is_active ≡ true) × (c.protocol ≡ str "cas")
unfolding find_matching
find_matching-is_active svc [] c h = cc
find_matching-is_active svc (x ∷ cs) c h =
    ground (arith, find_matching-is_active svc cs c, text_eq_iff x.protocol (str "cas"))

-- An application that is found for a service is active and speaks CAS, so that the check of Login
-- for one that is switched off never refuses.
pub find_client_by_service-is_active :
    (order : List OAuth2Client → List OAuth2Client) (svc : Text) (cs : List OAuth2Client)
    (c : OAuth2Client)
    → find_client_by_service order svc cs ≡ some c
    → (c.is_active ≡ true) × (c.protocol ≡ str "cas")
unfolding find_client_by_service
find_client_by_service-is_active order svc cs c h =
    elim (Option-cases (find_by_cas_service svc cs)) [
      | inl n ↦ find_matching-is_active svc (order cs) c (ground arith)
      | inr (x, k) ↦ find_by_cas_service-is_active svc cs c (ground arith)
    ]

cas_ttl-is_positive : (c : OAuth2Client) → is_positive (cas_ttl c) ≡ true
cas_ttl-is_positive c = ground arith

module _ {S : Type 0} (o : StoreOps S) (laws : IsStore o) (env : Env) where
  consume-save :
      (now later : ℕ) (fresh : Fresh) (service : Text) (c : OAuth2Client) (sd : SessionData)
      (s t : S)
      → save_ticket o env now (new_st fresh) (ticket_for o env now service c sd) (cas_ttl c) s
        ≡ some t
      → later ≤ now + pos_part (cas_ttl c)
      → (consume_ticket o env later (new_st fresh) t).0 ≡ some (ticket_for o env now service c sd)
  unfolding save_ticket consume_ticket
  consume-save now later fresh service c sd s t e before =
      let found =
        laws.get-set_live now later (ticket_key (new_st fresh)) _ (cas_ttl c) s t e
          (cas_ttl-is_positive c) before in
      ground (arith, found)

  answer_for-user :
      (v3 : Bool) (now : ℕ) (service service' uid : Text) (c : OAuth2Client) (sd : SessionData)
      (u : User)
      → match_service service service' ≡ true
      → get_by_client_id c.client_id env.clients ≡ some c
      → env.parse_uuid sd.user_id ≡ some uid
      → get_by_id uid env.users ≡ some u
      → answer_for env v3 service' (ticket_for o env now service c sd)
        ≡ success (principal_of c.cas_user_attribute u) (
            if v3 && c.cas_return_attributes
            then some (attributes_of (ticket_for o env now service c sd) u)
            else none)
  unfolding answer_for
  answer_for-user v3 now service service' uid c sd u m k p x = ground arith

  validate-found :
      (later : ℕ) (v3 : Bool) (ticket service : Text) (w : World S)
      {td : one_auth.Model.Payload.CasTicket}
      → (is_empty ticket || is_empty service) ≡ false
      → (consume_ticket o env later ticket w.kv).0 ≡ some td
      → (validate o env later v3 ticket service w).0 ≡ answer_for env v3 service td
  unfolding validate
  validate-found later v3 ticket service w e k = ground arith

  issue_ticket-issues :
      (now : ℕ) (fresh : Fresh) (r : Request) (service uid : Text) (c : OAuth2Client)
      (sd : SessionData) (w : World S) (t : S)
      → save_ticket o env now (new_st fresh) (ticket_for o env now service c sd) (cas_ttl c) w.kv
        ≡ some t
      → ((issue_ticket o env now fresh r service c sd uid w).0
          ≡ to_service (service_url o env service (new_st fresh)))
        × ((issue_ticket o env now fresh r service c sd uid w).1.kv ≡ t)
  unfolding issue_ticket
  issue_ticket-issues now fresh r service uid c sd w t e = (ground arith, ground arith)

  login-issues :
      (order : List OAuth2Client → List OAuth2Client) (now : ℕ) (fresh : Fresh) (r : Request)
      (w w' : World S) (c : OAuth2Client) (sd : SessionData) (uid : Text)
      → is_empty (query r (str "service")) ≡ false
      → find_client_by_service order (query r (str "service")) env.clients ≡ some c
      → current_session o env now fresh r w ≡ (some sd, w')
      → env.parse_uuid sd.user_id ≡ some uid
      → cas_gate env c uid ≡ next tt
      → login o env order now fresh r w
        ≡ issue_ticket o env now fresh r (query r (str "service")) c sd uid w'
  unfolding login with_session
  login-issues order now fresh r w w' c sd uid e f k p g =
      let active =
        find_client_by_service-is_active order (query r (str "service")) env.clients c f in
      ground (arith, active)

  -- A user with a session, whom the application of a service admits, is sent back to the service
  -- with a ticket, and within the ticket's lifetime the ticket validates for that service, up to
  -- slashes at the end, and names the user in the way that the application wants.
  pub cas_flow :
      (order : List OAuth2Client → List OAuth2Client) (now later : ℕ) (fresh : Fresh) (r : Request)
      (w w' : World S) (c : OAuth2Client) (sd : SessionData) (uid : Text) (u : User) (t : S)
      (v3 : Bool) (service' : Text)
      → is_empty (query r (str "service")) ≡ false
      → find_client_by_service order (query r (str "service")) env.clients ≡ some c
      → current_session o env now fresh r w ≡ (some sd, w')
      → env.parse_uuid sd.user_id ≡ some uid
      → cas_gate env c uid ≡ next tt
      → save_ticket o env now
          (new_st fresh)
          (ticket_for o env now (query r (str "service")) c sd)
          (cas_ttl c)
          w'.kv
        ≡ some t
      → get_by_client_id c.client_id env.clients ≡ some c
      → get_by_id uid env.users ≡ some u
      → later ≤ now + pos_part (cas_ttl c)
      → match_service (query r (str "service")) service' ≡ true
      → is_empty service' ≡ false
      → ((login o env order now fresh r w).0
          ≡ to_service (service_url o env (query r (str "service")) (new_st fresh)))
        × ((validate o env later v3 (new_st fresh) service' (login o env order now fresh r w).1).0
            ≡ success (principal_of c.cas_user_attribute u) (
                if v3 && c.cas_return_attributes
                then some (attributes_of (ticket_for o env now (query r (str "service")) c sd) u)
                else none))
  unfolding is_empty
  cas_flow order now later fresh r w w' c sd uid u t v3 service' e f k p g saved cl x before m ne =
      let service = query r (str "service") in
      let same = login-issues order now fresh r w w' c sd uid e f k p g in
      let (answer, kv) = issue_ticket-issues now fresh r service uid c sd w' t saved in
      rw (same) (
        answer,
        validate-found later v3 (new_st fresh) service'
              (issue_ticket o env now fresh r service c sd uid w').1 (rw (ne) refl)
              (rw (kv) (consume-save now later fresh service c sd w'.kv t saved before))
            ∙ answer_for-user v3 now service service' uid c sd u m cl p x,
      )
