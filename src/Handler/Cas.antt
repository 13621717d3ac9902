-- ===== src/Handler/Cas.antt =====
-- internal/handler/cas_handler.go: service tickets. The XML of the answers is not modelled, and the
-- random text of a ticket is that of `Fresh`. `order` is the ORDER BY of ClientRepository.ListAll.
pub mod Validate
pub mod RoundTrip
use one_auth.Base.{
  ℕ, ◌*◌, ◌++◌, Bool, true, false, not, ◌&&◌, ◌||◌, Option, none, some, List, [], ◌∷◌, Text, str,
  text_eq, is_empty, contains, drop_while, reverse, if◌then◌else◌, ◌==◌, ℤ, pos, is_positive,
  second, seconds, Flow, next, reply, require,
}
use one_auth.Model.Payload.{CasTicket, cas_ticket, as_cas_ticket, SessionData}
use one_auth.Model.User.{User, get_by_id}
use one_auth.Model.Client.{OAuth2Client, get_by_client_id}
use one_auth.Store.{StoreOps}
use one_auth.Oauth.Token.{text_or}
use one_auth.Session.{delete_session}
use one_auth.Handler.Env.{Env, World, Fresh, Request, query, text_of, user_allowed, current_session}
use one_auth.Handler.Bearer.{drop_session}

abbrev pub ticket_key : Text → Text
ticket_key t = str "cas:st:" ++ t

-- newST
abbrev pub new_st : Fresh → Text
new_st fresh = str "ST-" ++ fresh.code

-- strings.TrimRight(s, "/")
unfoldable pub trim_slashes : Text → Text
trim_slashes s = reverse (drop_while (λ c. c == b'/') (reverse s))

unfoldable pub match_service : Text → Text → Bool
match_service want got =
    if is_empty want then false else text_eq (trim_slashes want) (trim_slashes got)

-- ClientRepository.FindByCASService: the first row
unfoldable pub find_by_cas_service : Text → List OAuth2Client → Option OAuth2Client
find_by_cas_service svc [] = none
find_by_cas_service svc (c ∷ cs) =
    let rest = find_by_cas_service svc cs in
    if text_eq c.protocol (str "cas") && (c.is_active && text_eq c.cas_service svc)
    then some c
    else rest

-- The loop of findClientByService over ClientRepository.ListAll, which lists the active rows
unfoldable pub find_matching : Text → List OAuth2Client → Option OAuth2Client
find_matching svc [] = none
find_matching svc (c ∷ cs) =
    let rest = find_matching svc cs in
    if c.is_active
      && (text_eq c.protocol (str "cas")
          && (match_service c.cas_service svc || match_service c.cas_callback_url svc))
    then some c
    else rest

unfoldable pub find_client_by_service :
    (List OAuth2Client → List OAuth2Client) → Text → List OAuth2Client → Option OAuth2Client
find_client_by_service order svc cs = elim (find_by_cas_service svc cs) [
  | some c ↦ some c
  | none ↦ find_matching svc (order cs)
]

pub data CasReply : Type 0 where
  to : Text → CasReply
  to_login : Text → CasReply
  to_service : Text → CasReply
  unknown_service : CasReply
  app_disabled : CasReply
  bad_session : CasReply
  sp_initiated_off : CasReply
  no_grants : CasReply
  not_allowed : CasReply
  server_error : CasReply

-- if !client.IsBuiltin { … }
unfoldable pub cas_gate : Env → OAuth2Client → Text → Flow CasReply (Unit {0})
cas_gate env c uid =
    if c.is_builtin
    then next tt
    else if not c.allow_sp_initiated
    then reply sp_initiated_off
    else if text_eq c.access_policy (str "none")
    then reply no_grants
    else if text_eq c.access_policy (str "assigned")
    then require (user_allowed env c.client_id uid) not_allowed
    else next tt

-- The lifetime of a ticket
abbrev pub cas_ttl : OAuth2Client → ℤ
cas_ttl c =
    let d : ℤ = seconds c.cas_expires_seconds in if is_positive d then d else pos (300 * second)

-- pickCASPrincipal, and the user name for an empty one
unfoldable pub principal_of : Text → User → Text
principal_of attr u =
    if text_eq attr (str "user_id")
    then text_or u.id u.username
    else if text_eq attr (str "email")
    then text_or (text_of u.email) u.username
    else if text_eq attr (str "mobile")
    then text_or (text_of u.phone) u.username
    else u.username

pub record CasAttributes : Type 0 where
  pub username : Text
  pub user_id : Text
  pub display_name : Text
  pub nickname : Text
  pub email : Text
  pub mobile : Text
  pub department : Text
  pub employee_no : Text
  pub is_staff : Bool
  pub auth_date : ℕ

pub data CasValidation : Type 0 where
  invalid_request : CasValidation
  invalid_ticket : CasValidation
  invalid_service : CasValidation
  success : Text → Option CasAttributes → CasValidation

abbrev pub attributes_of : CasTicket → User → CasAttributes
attributes_of td u = record {
  username = u.username;
  user_id = u.id;
  display_name = text_or u.nickname u.username;
  nickname = u.nickname;
  email = text_of u.email;
  mobile = text_of u.phone;
  department = text_of u.department;
  employee_no = u.employee_no;
  is_staff = u.is_staff;
  auth_date = td.issued_at;
}

-- The answer for a ticket that was consumed
unfoldable pub answer_for : Env → Bool → Text → CasTicket → CasValidation
answer_for env v3 service td =
    if not (match_service td.service service)
    then invalid_service
    else elim (get_by_client_id td.client_id env.clients) [
      | none ↦ invalid_ticket
      | some c ↦ elim (env.parse_uuid td.user_id) [
        | none ↦ invalid_ticket
        | some uid ↦ elim (get_by_id uid env.users) [
          | none ↦ invalid_ticket
          | some u ↦
              success (principal_of c.cas_user_attribute u)
                (if v3 && c.cas_return_attributes then some (attributes_of td u) else none)
        ]
      ]
    ]

module _ {S : Type 0} (o : StoreOps S) (env : Env) where
  -- saveTicket
  unfoldable pub save_ticket : ℕ → Text → CasTicket → ℤ → S → Option S
  save_ticket now t td ttl s = o.set now (ticket_key t) (cas_ticket td) ttl s

  -- consumeTicket: the ticket if it is there, and the store without it
  unfoldable pub consume_ticket : ℕ → Text → S → Option CasTicket × S
  consume_ticket now t s = elim (o.get now (ticket_key t) s) [
    | none ↦ (none, s)
    | some b ↦ (as_cas_ticket b, o.del (ticket_key t) s)
  ]

  -- validate, of serviceValidate and, with attributes, of p3/serviceValidate
  unfoldable pub validate : ℕ → Bool → Text → Text → World S → CasValidation × World S
  validate now v3 ticket service w =
      if is_empty ticket || is_empty service
      then (invalid_request, w)
      else (let (td, kv) = consume_ticket now ticket w.kv in
          (
            elim td [ none ↦ invalid_ticket | some d ↦ answer_for env v3 service d ],
            record w { kv = kv },
          ))

  abbrev pub service_url : Text → Text → Text
  service_url service ticket =
      service
      ++ ((if contains service (str "?") then str "&" else str "?")
          ++ (str "ticket=" ++ env.query_escape ticket))

  abbrev pub ticket_for : ℕ → Text → OAuth2Client → SessionData → CasTicket
  ticket_for now service c sd = record {
    client_id = c.client_id;
    service = service;
    user_id = sd.user_id;
    username = sd.username;
    issued_at = now;
  }

  -- The ticket, the access log, and the way back to the service
  unfoldable pub issue_ticket :
      ℕ → Fresh → Request → Text → OAuth2Client → SessionData → Text → World S → CasReply × World S
  issue_ticket now fresh r service c sd uid w =
      elim (save_ticket now (new_st fresh) (ticket_for now service c sd) (cas_ttl c) w.kv) [
        | none ↦ (server_error, w)
        | some kv ↦ (
          to_service (service_url service (new_st fresh)),
          record w {
            kv = kv;
            access_log =
                record {
                  user_id = uid;
                  username = sd.username;
                  client_id = c.client_id;
                  client_name = c.client_name;
                  ip = r.client_ip;
                }
                ∷ w.access_log;
          },
        )
      ]

  unfoldable pub with_session :
      ℕ → Fresh → Request → Text → OAuth2Client → Option SessionData → World S → CasReply × World S
  with_session now fresh r service c none w = (
    to_login (
        env.frontend_base
        ++ (str "/?" ++ env.encode_query ((str "return_to", r.request_uri) ∷ []))),
    w,
  )
  with_session now fresh r service c (some sd) w = elim (env.parse_uuid sd.user_id) [
    | none ↦ (bad_session, w)
    | some uid ↦ elim (cas_gate env c uid) [
      | reply a ↦ (a, w)
      | next _ ↦ issue_ticket now fresh r service c sd uid w
    ]
  ]

  -- CASHandler.Login
  unfoldable pub login :
      (List OAuth2Client → List OAuth2Client) → ℕ → Fresh → Request → World S → CasReply × World S
  login order now fresh r w =
      let service = query r (str "service") in
      if is_empty service
      then (to (env.frontend_base ++ str "/"), w)
      else elim (find_client_by_service order service env.clients) [
        | none ↦ (unknown_service, w)
        | some c ↦
            if not c.is_active
            then (app_disabled, w)
            else (let (sd, w') = current_session o env now fresh r w in
                with_session now fresh r service c sd w')
      ]

  -- CASHandler.Logout
  unfoldable pub logout : ℕ → Fresh → Request → World S → CasReply × World S
  logout now fresh r w =
      let target = text_or (query r (str "service")) (query r (str "url")) in
      let (sd, w') = current_session o env now fresh r w in
      (
        to (text_or target (env.frontend_base ++ str "/")),
        drop_session o (elim sd [ none ↦ none | some d ↦ some d.session_id ]) w',
      )
