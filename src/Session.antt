-- ===== src/Session.antt =====
-- internal/session/session.go: Manager, over a store. The index of known sessions is a list without
-- duplicates; random session ids are arguments.
pub mod Listing
use one_auth.Base.{
  ℕ, ◌++◌, Bool, Option, none, some, List, [], ◌∷◌, Text, str, text_eq, is_empty, ℤ, add_duration,
  if◌then◌else◌, ltb,
}
use one_auth.Model.Payload.{SessionData, session, as_session}
use one_auth.Store.{StoreOps}

abbrev pub session_key : Text → Text
session_key sid = str "session:" ++ sid

-- m.index
unfoldable pub forget : Text → List Text → List Text
forget sid [] = []
forget sid (i ∷ is) = let rest = forget sid is in if text_eq i sid then rest else i ∷ rest

unfoldable pub register : Text → List Text → List Text
register sid index = sid ∷ forget sid index

module _ {S : Type 0} (o : StoreOps S) where
  -- Manager.Create, with the new session id and the data of the user
  unfoldable pub create :
      ℤ
      → ℕ
      → Text
      → Text
      → Text
      → Text
      → Text
      → Text
      → Bool
      → List Text
      → S
      → Option (SessionData × List Text × S)
  create ttl now sid user_id username display_name ip ua is_staff index s =
      let d : SessionData = record {
        session_id = sid;
        user_id = user_id;
        username = username;
        display_name = display_name;
        is_staff = is_staff;
        ip = ip;
        user_agent = ua;
        auth_time = now;
        created_at = now;
        expires_at = add_duration now ttl;
      } in
      elim (o.set now (session_key sid) (session d) ttl s) [
        | none ↦ none
        | some t ↦ some (d, register sid index, t)
      ]

  -- Manager.Get
  unfoldable pub get_session : ℕ → Text → S → Option SessionData
  get_session now sid s =
      if is_empty sid
      then none
      else elim (o.get now (session_key sid) s) [ none ↦ none | some b ↦ as_session b ]

  -- Manager.Delete
  unfoldable pub delete_session : Text → List Text → S → List Text × S
  delete_session sid index s = (forget sid index, o.del (session_key sid) s)

  -- The loop of ListAll: the sessions that are still there, and the stale ids.
  unfoldable pub collect : ℕ → List Text → S → List SessionData × List Text
  collect now [] s = ([], [])
  collect now (sid ∷ ids) s =
      let (found, stale) = collect now ids s in
      elim (get_session now sid s) [ none ↦ (found, sid ∷ stale) | some d ↦ (d ∷ found, stale) ]

unfoldable pub forget_all : List Text → List Text → List Text
unfolding forget
forget_all [] index = index
forget_all (sid ∷ stale) index = forget_all stale (forget sid index)

-- sort.Slice by CreatedAt, newest first
unfoldable pub insert_newest : SessionData → List SessionData → List SessionData
insert_newest d [] = d ∷ []
insert_newest d (e ∷ es) =
    let rest = insert_newest d es in if ltb d.created_at e.created_at then e ∷ rest else d ∷ e ∷ es

unfoldable pub sort_newest : List SessionData → List SessionData
unfolding insert_newest
sort_newest [] = []
sort_newest (d ∷ ds) = insert_newest d (sort_newest ds)

-- Manager.ListAll: the sessions, and the index without the stale ids
unfoldable pub list_all :
    {S : Type 0} → StoreOps S → ℕ → List Text → S → List SessionData × List Text
list_all o now index s =
    let (found, stale) = collect o now index s in (sort_newest found, forget_all stale index)
