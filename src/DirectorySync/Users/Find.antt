-- ===== src/DirectorySync/Users/Find.antt =====
-- A remote user who was applied is found again, by the binding.
use one_auth.Base.{
  ◌≡◌, refl, ap, sym, ◌∙◌, subst, inl, inr, true, false, Option, none, some, List, [], ◌∷◌, ◌++◌,
  Text, str, text_eq_refl, is_empty, arith, Option-cases,
}
use one_auth.Model.User.{User, get_by_id}
use one_auth.Account.{update}
use one_auth.Account.Lock.{get_by_id-update}
use one_auth.DirectorySync.Fields.{Members}
use one_auth.DirectorySync.State.{Binding, SyncState, upsert_binding}
use one_auth.DirectorySync.Departments.{DirectorySyncConfig, Resolver, resolve_user_department}
use one_auth.DirectorySync.Remote.{
  RemoteUser, read_remote, find_existing_user, is_departed, create_user, save_user,
}
use one_auth.DirectorySync.Rows.{Overrides, new_user, changed_user}
use one_auth.DirectorySync.Users.{
  FreshKeys, SyncError, apply_new, apply_existing, apply_found, apply_remote_user, assign_and_bind,
}
use one_auth.DirectorySync.Users.Free.{apply_remote_user-found}
use one_auth.DirectorySync.Users.Listed.{get_binding-put, IsListed, find_existing_user-IsListed}

get_by_id-snoc :
    (us : List User) (u : User)
    → get_by_id u.id us ≡ none
    → get_by_id u.id (us ++ (u ∷ [])) ≡ some u
unfolding get_by_id
get_by_id-snoc [] u h = rw (text_eq_refl u.id) refl
get_by_id-snoc (w ∷ us) u h = ground (arith, get_by_id-snoc us u)

-- A bound row is the one that is found.
find-bound :
    (provider : Text) (r : RemoteUser) (bs : List Binding) (us : List User) (id : Text) (v : User)
    → get_by_id id us ≡ some v
    → find_existing_user provider r (upsert_binding provider (str "user") r.external_id id [] bs) us
      ≡ some v
unfolding find_existing_user upsert_binding
find-bound provider r bs us id v h =
    let b : Binding = record {
      provider = provider;
      external_type = str "user";
      external_id = r.external_id;
      local_id = id;
      remote_path = [];
    } in
    rw (get_binding-put b bs, h) refl

module _ (parse_uuid : Text → Option Text) (hash : Text → Option Text) (password : Text)
    (cfg : DirectorySyncConfig) where
  abbrev pub IsFound : RemoteUser → SyncState → Type 0
  IsFound r st =
      (v : User) × (find_existing_user cfg.platform_type r st.bindings st.users ≡ some v)
      × (v.domain_account ≡ r.external_id)

  created-row :
      (u : User) (us us' : List User)
      → create_user u us ≡ some us'
      → get_by_id u.id us ≡ none
      → get_by_id u.id us' ≡ some (record u { is_active = true })
  unfolding create_user
  created-row u us us' h unused =
      let row = record u { is_active = true } in
      let there = get_by_id-snoc us row unused in
      let same : us ++ (row ∷ []) ≡ us' = ground arith in
      subst (λ rows. get_by_id u.id rows ≡ some row) same there

  saved-row :
      (u v : User) (us us' : List User)
      → save_user v us ≡ some us'
      → v.id ≡ u.id
      → IsListed us u
      → get_by_id u.id us' ≡ some v
  unfolding save_user
  saved-row u v us us' h i (w, found, same) =
      let there =
        get_by_id-update w v us (i ∙ sym same) (ap (λ id. get_by_id id us) same ∙ found) in
      let rows : update v us ≡ us' = ground arith in
      subst (λ rs. get_by_id u.id rs ≡ some v) rows
        (ap (λ id. get_by_id id (update v us)) (sym same) ∙ there)

  apply_new-IsFound :
      (over : Overrides) (fresh : FreshKeys) (r : RemoteUser) (department : Option Text)
      (st : SyncState)
      → get_by_id fresh.user_id st.users ≡ none
      → (apply_new parse_uuid hash password cfg over false fresh r department st).0 ≡ none
      → IsFound r (apply_new parse_uuid hash password cfg over false fresh r department st).1
  unfolding apply_new assign_and_bind new_user
  apply_new-IsFound over fresh r department st unused h =
      let made = new_user parse_uuid hash password cfg over fresh.user_id r department st.users in
      elim (Option-cases (create_user made st.users)) [
        | inl n ↦ absurd (ground arith)
        | inr (us, k) ↦
            let row = created-row made st.users us k unused in
            rw (k) (
              record made { is_active = true },
              find-bound cfg.platform_type r st.bindings us fresh.user_id _ row,
              refl,
            )
      ]

  apply_existing-IsFound :
      (over : Overrides) (r : RemoteUser) (u : User) (department : Option Text) (st : SyncState)
      → IsListed st.users u
      → (apply_existing parse_uuid hash password cfg over false r u department st).0 ≡ none
      → IsFound r (apply_existing parse_uuid hash password cfg over false r u department st).1
  unfolding apply_existing assign_and_bind changed_user
  apply_existing-IsFound over r u department st listed h =
      let changed = changed_user parse_uuid hash password cfg over u r department st.users in
      elim (Option-cases (save_user changed st.users)) [
        | inl n ↦ absurd (ground arith)
        | inr (us, k) ↦
            let row = saved-row u changed st.users us k refl listed in
            rw (k) (changed, find-bound cfg.platform_type r st.bindings us u.id changed row, refl)
      ]

  apply_found-IsFound :
      (over : Overrides) (fresh : FreshKeys) (r : RemoteUser) (user : Option User)
      (department : Option Text) (st : SyncState)
      → find_existing_user cfg.platform_type r st.bindings st.users ≡ user
      → is_departed cfg r ≡ false
      → get_by_id fresh.user_id st.users ≡ none
      → (apply_found parse_uuid hash password cfg over false fresh r user department st).0 ≡ none
      → IsFound r (apply_found parse_uuid hash password cfg over false fresh r user department st).1
  unfolding apply_found
  apply_found-IsFound over fresh r none department st f d unused h =
      let ok : (apply_new parse_uuid hash password cfg over false fresh r department st).0 ≡ none =
        ground arith in
      rw (d) (apply_new-IsFound over fresh r department st unused ok)
  apply_found-IsFound over fresh r (some u) department st f d unused h =
      let ok : (apply_existing parse_uuid hash password cfg over false r u department st).0 ≡ none =
        ground arith in
      rw (d) (
        apply_existing-IsFound over r u department st
          (find_existing_user-IsListed cfg.platform_type r st.bindings st.users u f) ok)

  -- A remote user with a key, who has not left and was applied without an error, is found afterwards,
  -- by the lookup that the preview and the next application make, as a user with that key as domain
  -- account. (No row had the key that is drawn for a new user.)
  pub apply_remote_user-IsFound :
      (over : Overrides) (fresh : FreshKeys) (resolver : Resolver) (mount : Option Text)
      (remote : Members) (st st' : SyncState) (department : Option Text)
      → is_empty (read_remote cfg remote).external_id ≡ false
      → is_departed cfg (read_remote cfg remote) ≡ false
      → resolve_user_department parse_uuid cfg fresh.department_id false resolver mount remote
          (record st { seen = (read_remote cfg remote).external_id ∷ st.seen })
        ≡ (department, st')
      → get_by_id fresh.user_id st'.users ≡ none
      → (apply_remote_user parse_uuid hash password cfg over false fresh resolver mount remote st).0
        ≡ none
      → IsFound
          (read_remote cfg remote)
          (apply_remote_user parse_uuid hash password cfg over false fresh resolver mount remote
            st).1
  apply_remote_user-IsFound over fresh resolver mount remote st st' department e d res unused h =
      let r = read_remote cfg remote in
      let found =
        apply_remote_user-found parse_uuid hash password cfg over fresh resolver mount remote st st'
          department e res in
      rw (found) (
        apply_found-IsFound over fresh r
          (find_existing_user cfg.platform_type r st'.bindings st'.users) department st' refl d
          unused (ap (λ (x : Option SyncError × SyncState). x.0) (sym found) ∙ h))
