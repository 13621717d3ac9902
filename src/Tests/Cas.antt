-- ===== src/Tests/Cas.antt =====
-- CAS at a concrete service: alice has a session, takes a ticket, and the service validates it.
use one_auth.Base.{
  ◌≡◌, refl, true, false, some, none, [], ◌∷◌, ◌+◌, List, Text, str, text_eq, is_empty, drop_while,
  pos, arith, seconds, if◌then◌else◌,
}
use one_auth.Model.User.{get_by_id}
use one_auth.Model.Payload.{CasTicket, cas_ticket}
use one_auth.Model.Client.{OAuth2Client, get_by_client_id}
use one_auth.Store.Memory.{MemoryStore, set, get, find, put}
use one_auth.Store.Memory.Laws.{memory_ops, memory_ops-IsStore}
use one_auth.Handler.Env.{Env, World, Request, current_session, session_from_cookie}
use one_auth.Handler.Cas.{
  to_service, success, invalid_ticket, ticket_key, trim_slashes, match_service, find_by_cas_service,
  find_matching, find_client_by_service, cas_gate, principal_of, answer_for, attributes_of,
  save_ticket, consume_ticket, validate, login, service_url, ticket_for,
}
use one_auth.Handler.Cas.Validate.{IsValidated, validate_once}
use one_auth.Handler.Cas.RoundTrip.{cas_flow}
use one_auth.Session.{get_session}
use one_auth.Tests.Data.{alice, portal}
use one_auth.Tests.Tokens.{noon}
use one_auth.Tests.Endpoints.{env, fresh, request, world, alice_session}

abbrev wiki : OAuth2Client
wiki = record portal {
  client_id = str "wiki";
  protocol = str "cas";
  cas_service = str "https://w";
  cas_user_attribute = str "email";
}

abbrev cas_env : Env
cas_env = record env { clients = wiki ∷ [] }

abbrev as_listed : List OAuth2Client → List OAuth2Client
as_listed cs = cs

abbrev to_wiki : Request
to_wiki = request (λ key. if text_eq key (str "service") then some (str "https://w") else none)

abbrev st : Text
st = str "ST-c1"

abbrev wiki_ticket : CasTicket
wiki_ticket = ticket_for memory_ops cas_env noon (str "https://w") wiki alice_session

abbrev with_ticket : MemoryStore
with_ticket = set noon (ticket_key st) (cas_ticket wiki_ticket) (pos 300_000_000_000) world.kv

cas_flow_example :
    ((login memory_ops cas_env as_listed noon fresh to_wiki world).0
      ≡ to_service (service_url memory_ops cas_env (str "https://w") st))
    × ((validate memory_ops cas_env
          (noon + 300_000_000_000)
          true
          st
          (str "https://w/")
          (login memory_ops cas_env as_listed noon fresh to_wiki world).1).0
        ≡ success (str "alice@example.com") (some (attributes_of wiki_ticket alice)))
unfolding is_empty find_client_by_service find_by_cas_service find_matching match_service
    trim_slashes drop_while text_eq current_session session_from_cookie get_session get find set put
    cas_gate save_ticket get_by_client_id get_by_id principal_of seconds
cas_flow_example =
    cas_flow memory_ops memory_ops-IsStore cas_env as_listed noon (noon + 300_000_000_000) fresh
      to_wiki world world wiki alice_session (str "a1") alice with_ticket true (str "https://w/")
      refl refl refl refl refl refl refl refl (omega arith) refl refl

abbrev ticket_world : World MemoryStore
ticket_world = record world { kv = with_ticket }

ticket_validates :
    (validate memory_ops cas_env noon false st (str "https://w") ticket_world).0
    ≡ success (str "alice@example.com") none
unfolding validate consume_ticket answer_for is_empty match_service trim_slashes drop_while text_eq
    get find set put get_by_client_id get_by_id principal_of
ticket_validates = refl

validate_once_example :
    IsValidated memory_ops cas_env noon st (str "https://w") (str "alice@example.com") ticket_world
    × ((validate memory_ops cas_env
          (noon + 1)
          true
          st
          (str "https://w")
          (validate memory_ops cas_env noon false st (str "https://w") ticket_world).1).0
        ≡ invalid_ticket)
unfolding is_empty
validate_once_example =
    validate_once memory_ops cas_env memory_ops-IsStore noon false st (str "https://w")
      (str "alice@example.com") none ticket_world ticket_validates (noon + 1) true (str "https://w")
      (validate memory_ops cas_env noon false st (str "https://w") ticket_world).1 refl refl
