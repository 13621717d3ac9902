-- ===== src/DirectorySync/Users/Free.antt =====
-- A remote user who is not known here is made: the names that are chosen repeat no unique column.
use one_auth.Base.{
  ◌≡◌, refl, ap, sym, ◌∙◌, inl, inr, true, false, Option, none, some, List, [], ◌∷◌, ◌++◌, Text,
  is_empty, arith, Bool-cases, Option-cases, if_intro,
}
use one_auth.Model.User.{User}
use one_auth.LoginRule.{trim_space}
use one_auth.Handler.Env.{nil_uuid}
use one_auth.DirectorySync.Names.{all_bytes}
use one_auth.DirectorySync.Blank.{blank, trim_space-blank, blank-trim}
use one_auth.DirectorySync.Unique.{Column, value_taken, username_of, email_of, phone_of}
use one_auth.DirectorySync.Unique.Bytes.{
  IsFresh, generate_username-IsFresh, resolve_import_username-IsFresh,
}
use one_auth.DirectorySync.Email.{resolve_assign_email}
use one_auth.DirectorySync.Email.Assign.{resolve_assign_email-preview}
use one_auth.DirectorySync.Fields.{Members}
use one_auth.DirectorySync.State.{SyncState}
use one_auth.DirectorySync.Departments.{DirectorySyncConfig, Resolver, resolve_user_department}
use one_auth.DirectorySync.Remote.{
  RemoteUser, read_remote, taken_elsewhere, repeats, create_user, is_departed, find_existing_user,
}
use one_auth.DirectorySync.Rows.{
  Overrides, email_config, person, free_or, new_email, new_username, new_user,
}
use one_auth.DirectorySync.Users.{
  FreshKeys, apply_new, apply_found, apply_remote_user, assign_and_bind,
}
use one_auth.DirectorySync.Users.Solid.{free-any_other, clean-blank, resolve_assign_email-blank}

blank-is_empty : (s : Text) → blank (trim_space s) ≡ is_empty (trim_space s)
blank-is_empty s = blank-trim s ∙ sym (trim_space-blank s)

empty_is_nil : (s : Text) → is_empty s ≡ true → s ≡ []
unfolding is_empty
empty_is_nil [] h = refl
empty_is_nil (c ∷ s) h = cc

nil_is_empty : is_empty [] ≡ true
unfolding is_empty
nil_is_empty = refl

not_blank-non_empty : (s : Text) → blank s ≡ false → is_empty s ≡ false
unfolding is_empty all_bytes
not_blank-non_empty [] h = cc
not_blank-non_empty (c ∷ s) h = refl

blank_override : (s : Text) → (trim_space s ≡ [] → s ≡ []) → blank s ≡ is_empty s
blank_override s h = elim (Bool-cases (blank s)) [
  | inl e ↦
      let nothing_left = empty_is_nil (trim_space s) (trim_space-blank s ∙ e) in
      e ∙ sym (ap is_empty (h nothing_left) ∙ nil_is_empty)
  | inr e ↦ e ∙ sym (not_blank-non_empty s e)
]

module _ (parse_uuid : Text → Option Text) (hash : Text → Option Text) (password : Text)
    (cfg : DirectorySyncConfig) where
  -- What a value of a unique column must be like in order to repeat no other
  abbrev IsNew : Column → List User → Option Text → Type 0
  IsNew column us v =
      (w : Text) → v ≡ some w → (value_taken column w nil_uuid us ≡ false) × (blank w ≡ false)

  new_username-IsFresh :
      (over : Overrides) (r : RemoteUser) (us : List User)
      → IsFresh nil_uuid us (new_username parse_uuid hash password cfg over r us)
  unfolding new_username
  new_username-IsFresh over r us =
      if_intro (IsFresh nil_uuid us) _
        (λ _.
          resolve_import_username-IsFresh cfg.username_strategy r.source_username r.nickname
            nil_uuid over.username us)
        (λ _.
          generate_username-IsFresh cfg.username_strategy r.source_username r.nickname nil_uuid us)

  free_or-IsNew :
      (column : Column) (v : Text) (us : List User)
      → blank v ≡ is_empty v
      → IsNew column us (free_or parse_uuid hash password cfg column v nil_uuid us none)
  free_or-IsNew column v us b w h = (ground arith, ground arith)

  new_email-IsNew :
      (over : Overrides) (r : RemoteUser) (us : List User)
      → blank over.email ≡ is_empty over.email
      → blank r.email ≡ is_empty r.email
      → IsNew email_of us (new_email parse_uuid hash password cfg over r us)
  unfolding new_email
  new_email-IsNew over r us b c =
      let cfg_email = email_config parse_uuid hash password cfg in
      let p = person parse_uuid hash password cfg r in
      if_intro (IsNew email_of us) (is_empty over.email)
        (λ _. elim (Option-cases (resolve_assign_email cfg_email p nil_uuid us)) [
          | inl n ↦ rw (n) (free_or-IsNew email_of r.email us c)
          | inr (e, k) ↦
              let free = (resolve_assign_email-preview cfg_email p nil_uuid us).0 e k in
              let solid = resolve_assign_email-blank cfg_email p nil_uuid us e k in
              rw (k) (λ w h. (ground arith, ground arith))
        ])
        (λ _. free_or-IsNew email_of over.email us b)

  taken-IsNew :
      (column : Column) (u : User) (us : List User)
      → IsNew column us (column u)
      → taken_elsewhere column u us ≡ false
  taken-IsNew column u us h = elim (Option-cases (column u)) [
    | inl n ↦ rw (taken_elsewhere, n) refl
    | inr (v, k) ↦
        rw (taken_elsewhere, k) (let (f, b) = h v k in free-any_other column v u.id us f b)
  ]

  -- The texts of a remote user are trimmed.
  abbrev IsTrimmed : RemoteUser → Type 0
  IsTrimmed r = (blank r.email ≡ is_empty r.email) × (blank r.phone ≡ is_empty r.phone)

  read_remote-IsTrimmed : (m : Members) → IsTrimmed (read_remote cfg m)
  unfolding read_remote
  read_remote-IsTrimmed m = (blank-is_empty _, blank-is_empty _)

  abbrev pub new_row : Overrides → Text → RemoteUser → Option Text → List User → User
  new_row over id r department us =
      record (new_user parse_uuid hash password cfg over id r department us) { is_active = true }

  new_row-free :
      (over : Overrides) (id : Text) (r : RemoteUser) (department : Option Text) (us : List User)
      → blank over.email ≡ is_empty over.email
      → IsTrimmed r
      → repeats (new_row over id r department us) us ≡ false
  unfolding repeats new_user
  new_row-free over id r department us b (c, d) =
      let row = new_row over id r department us in
      let (free, (clean, long)) = new_username-IsFresh over r us in
      let name =
        free-any_other username_of (new_username parse_uuid hash password cfg over r us) id us free
          (clean-blank _ clean long) in
      let email = taken-IsNew email_of row us (new_email-IsNew over r us b c) in
      let phone = taken-IsNew phone_of row us (free_or-IsNew phone_of r.phone us d) in
      ground (arith, name, email, phone)

  apply_found-makes :
      (over : Overrides) (fresh : FreshKeys) (r : RemoteUser) (department : Option Text)
      (st : SyncState)
      → is_departed cfg r ≡ false
      → repeats (new_row over fresh.user_id r department st.users) st.users ≡ false
      → ((apply_found parse_uuid hash password cfg over false fresh r none department st).0 ≡ none)
        × ((apply_found parse_uuid hash password cfg over false fresh r none department st).1.users
            ≡ st.users ++ (new_row over fresh.user_id r department st.users ∷ []))
  unfolding apply_found apply_new create_user assign_and_bind
  apply_found-makes over fresh r department st d free = rw (d, free) (refl, refl)

  pub apply_remote_user-found :
      (over : Overrides) (fresh : FreshKeys) (resolver : Resolver) (mount : Option Text)
      (remote : Members) (st st' : SyncState) (department : Option Text)
      → is_empty (read_remote cfg remote).external_id ≡ false
      → resolve_user_department parse_uuid cfg fresh.department_id false resolver mount remote
          (record st { seen = (read_remote cfg remote).external_id ∷ st.seen })
        ≡ (department, st')
      → apply_remote_user parse_uuid hash password cfg over false fresh resolver mount remote st
        ≡ apply_found parse_uuid hash password cfg over false fresh
            (read_remote cfg remote)
            (find_existing_user cfg.platform_type (read_remote cfg remote) st'.bindings st'.users)
            department
            st'
  unfolding apply_remote_user
  apply_remote_user-found over fresh resolver mount remote st st' department e res = rw (e) (
      ap
        (λ (x : Option Text × SyncState).
          apply_found parse_uuid hash password cfg over false fresh (read_remote cfg remote)
            (find_existing_user cfg.platform_type (read_remote cfg remote) x.1.bindings x.1.users)
            x.0 x.1)
        res)

  -- A remote user with a key, who has not left and is not known here, is made: the write does not
  -- fail, whatever names the other users have and the administrator typed (an address that is blank
  -- but not empty aside), the row is the only new one, and it is active even if the directory says
  -- that the user is not.
  pub apply_remote_user-makes :
      (over : Overrides) (fresh : FreshKeys) (resolver : Resolver) (mount : Option Text)
      (remote : Members) (st st' : SyncState) (department : Option Text)
      → (trim_space over.email ≡ [] → over.email ≡ [])
      → is_empty (read_remote cfg remote).external_id ≡ false
      → is_departed cfg (read_remote cfg remote) ≡ false
      → resolve_user_department parse_uuid cfg fresh.department_id false resolver mount remote
          (record st { seen = (read_remote cfg remote).external_id ∷ st.seen })
        ≡ (department, st')
      → find_existing_user cfg.platform_type (read_remote cfg remote) st'.bindings st'.users ≡ none
      → ((apply_remote_user parse_uuid hash password cfg over false fresh resolver mount remote
            st).0
          ≡ none)
        × ((apply_remote_user parse_uuid hash password cfg over false fresh resolver mount remote
              st).1.users
            ≡ st'.users
              ++ (new_row over fresh.user_id (read_remote cfg remote) department st'.users ∷ []))
  apply_remote_user-makes over fresh resolver mount remote st st' department b e d res find =
      let free =
        new_row-free over fresh.user_id (read_remote cfg remote) department st'.users
          (blank_override over.email b) (read_remote-IsTrimmed remote) in
      rw (apply_remote_user-found over fresh resolver mount remote st st' department e res, find)
        (apply_found-makes over fresh (read_remote cfg remote) department st' d free)
