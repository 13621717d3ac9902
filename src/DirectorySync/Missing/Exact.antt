-- ===== src/DirectorySync/Missing/Exact.antt =====
-- In a table whose keys and unique columns are unique, just the users that are missing are disabled.
use one_auth.Base.{
  ◌≡◌, refl, ap, sym, ◌∙◌, inl, inr, Bool, true, false, not, ◌&&◌, none, some, List, [], ◌∷◌, ◌++◌,
  map, Text, text_eq, text_eq_iff, arith, Bool-cases, Option-cases, if◌then◌else◌,
}
use one_auth.Model.User.{User, get_by_id}
use one_auth.Account.{update}
use one_auth.DirectorySync.Unique.{Column, any_other, username_of, email_of, phone_of}
use one_auth.DirectorySync.State.{Buffer, Binding, SyncState}
use one_auth.DirectorySync.Remote.{source_missing, taken_elsewhere, repeats, save_user}
use one_auth.DirectorySync.Missing.{is_missing, count_disabled, disable_each, disable_missing_users}

-- No row has the key
abbrev pub is_unused : Text → List User → Bool
is_unused id us = elim (get_by_id id us) [ none ↦ true | some u ↦ false ]

unfoldable pub distinct_keys : List User → Bool
distinct_keys [] = true
distinct_keys (u ∷ us) = is_unused u.id us && distinct_keys us

-- No row repeats a unique column of the table.
unfoldable pub none_repeats : List User → List User → Bool
none_repeats [] table = true
none_repeats (u ∷ us) table = not (repeats u table) && none_repeats us table

update-unused : (v : User) (us : List User) → is_unused v.id us ≡ true → update v us ≡ us
unfolding get_by_id update
update-unused v [] h = refl
update-unused v (u ∷ us) h = ground (arith, update-unused v us)

update-append :
    (v u : User) (pre us : List User)
    → v.id ≡ u.id
    → is_unused v.id pre ≡ true
    → is_unused v.id us ≡ true
    → update v (pre ++ (u ∷ us)) ≡ pre ++ (v ∷ us)
unfolding get_by_id update
update-append v u [] us e h k =
    let rest = update-unused v us k in ground (arith, rest, text_eq_iff u.id v.id)
update-append v u (w ∷ pre) us e h k = ground (arith, update-append v u pre us e)

any_other-swap :
    (column : Column) (value current : Text) (x y : User) (pre us : List User)
    → column x ≡ column y
    → x.id ≡ y.id
    → any_other column value current (pre ++ (x ∷ us))
      ≡ any_other column value current (pre ++ (y ∷ us))
unfolding any_other
any_other-swap column value current x y [] us e i = rw (e, i) refl
any_other-swap column value current x y (w ∷ pre) us e i =
    ground (arith, any_other-swap column value current x y pre us e i)

taken_elsewhere-swap :
    (column : Column) (w x y : User) (pre us : List User)
    → column x ≡ column y
    → x.id ≡ y.id
    → taken_elsewhere column w (pre ++ (x ∷ us)) ≡ taken_elsewhere column w (pre ++ (y ∷ us))
taken_elsewhere-swap column w x y pre us e i = elim (Option-cases (column w)) [
  | inl n ↦ rw (taken_elsewhere, n) refl
  | inr (v, k) ↦ rw (taken_elsewhere, k) (any_other-swap column v w.id x y pre us e i)
]

repeats-swap :
    (w u : User) (pre us : List User)
    → repeats w (pre ++ (source_missing u ∷ us)) ≡ repeats w (pre ++ (u ∷ us))
unfolding repeats
repeats-swap w u pre us =
    rw
      (
        taken_elsewhere-swap username_of w (source_missing u) u pre us refl refl,
        taken_elsewhere-swap email_of w (source_missing u) u pre us refl refl,
        taken_elsewhere-swap phone_of w (source_missing u) u pre us refl refl,
      )
      refl

none_repeats-swap :
    (ws : List User) (u : User) (pre us : List User)
    → none_repeats ws (pre ++ (source_missing u ∷ us)) ≡ none_repeats ws (pre ++ (u ∷ us))
unfolding none_repeats
none_repeats-swap [] u pre us = refl
none_repeats-swap (w ∷ ws) u pre us =
    rw (repeats-swap w u pre us, none_repeats-swap ws u pre us) refl

snoc-append : (pre us : List User) (v : User) → (pre ++ (v ∷ [])) ++ us ≡ pre ++ (v ∷ us)
snoc-append [] us v = refl
snoc-append (w ∷ pre) us v = ap (λ vs. w ∷ vs) (snoc-append pre us v)

-- The keys of the rows are not among those before them.
unfoldable apart : List User → List User → Bool
apart [] pre = true
apart (u ∷ us) pre = is_unused u.id pre && apart us pre

is_unused-snoc :
    (id : Text) (pre : List User) (v : User)
    → is_unused id pre ≡ true
    → text_eq v.id id ≡ false
    → is_unused id (pre ++ (v ∷ [])) ≡ true
unfolding get_by_id
is_unused-snoc id [] v h n = ground arith
is_unused-snoc id (w ∷ pre) v h n = ground (arith, is_unused-snoc id pre v)

text_eq_sym : (s t : Text) → text_eq s t ≡ text_eq t s
text_eq_sym s t = ground (arith, text_eq_iff s t, text_eq_iff t s)

apart-snoc :
    (us pre : List User) (v : User)
    → apart us pre ≡ true
    → is_unused v.id us ≡ true
    → apart us (pre ++ (v ∷ [])) ≡ true
unfolding apart get_by_id
apart-snoc [] pre v h k = refl
apart-snoc (u ∷ us) pre v h k =
    ground (arith, apart-snoc us pre v, is_unused-snoc u.id pre v, text_eq_sym u.id v.id)

apart-nil : (us : List User) → apart us [] ≡ true
unfolding apart get_by_id
apart-nil [] = refl
apart-nil (u ∷ us) = apart-nil us

module _ (provider : Text) (buffers : List Buffer) where
  abbrev pub disable_if_missing : List Binding → User → User
  disable_if_missing bs u = if is_missing provider buffers bs u then source_missing u else u

  repeats-missing : (u : User) (rows : List User) → repeats (source_missing u) rows ≡ repeats u rows
  unfolding repeats
  repeats-missing u rows = refl

  save-missing :
      (u : User) (pre us rows : List User)
      → rows ≡ pre ++ (u ∷ us)
      → is_unused u.id pre ≡ true
      → is_unused u.id us ≡ true
      → repeats u rows ≡ false
      → save_user (source_missing u) rows ≡ some (pre ++ (source_missing u ∷ us))
  unfolding save_user
  save-missing u pre us rows e h k n =
      let saved = update-append (source_missing u) u pre us refl h k in
      rw (repeats-missing u rows, n) (ap some (ap (update (source_missing u)) e ∙ saved))

  disable_each-map :
      (us pre : List User) (st : SyncState)
      → st.users ≡ pre ++ us
      → distinct_keys us ≡ true
      → apart us pre ≡ true
      → none_repeats us st.users ≡ true
      → ((disable_each provider buffers false us st).0 ≡ none)
        × ((disable_each provider buffers false us st).1.users
            ≡ pre ++ map (disable_if_missing st.bindings) us)
  unfolding disable_each distinct_keys apart none_repeats
  disable_each-map [] pre st e d a n = (refl, e)
  disable_each-map (u ∷ us) pre st e d a n =
      elim (Bool-cases (is_missing provider buffers st.bindings u)) [
        | inl m ↦
            let saved =
              save-missing u pre us st.users e (ground arith) (ground arith) (ground arith) in
            let st' : SyncState = record (count_disabled provider buffers false u st) {
              users = pre ++ (source_missing u ∷ us);
            } in
            let (ok, rest) =
              disable_each-map us (pre ++ (source_missing u ∷ [])) st'
                (sym (snoc-append pre us (source_missing u))) (ground arith)
                (apart-snoc us pre (source_missing u) (ground arith) (ground arith))
                (none_repeats-swap us u pre us ∙ (ap (none_repeats us) (sym e) ∙ ground arith)) in
            rw (m, saved) (ok, rest ∙ snoc-append pre _ (source_missing u))
        | inr m ↦
            let (ok, rest) =
              disable_each-map us (pre ++ (u ∷ [])) st (e ∙ sym (snoc-append pre us u))
                (ground arith) (apart-snoc us pre u (ground arith) (ground arith)) (ground arith) in
            rw (m) (ok, rest ∙ snoc-append pre _ u)
      ]

  -- In a table whose keys and unique columns are unique, disableMissingUsers succeeds, and disables
  -- just the users of the platform that are not disabled yet and of whom the last pull brought
  -- neither the bound key, nor the login name, nor the address; all other rows stay.
  pub disable_missing_users-map :
      (st : SyncState)
      → distinct_keys st.users ≡ true
      → none_repeats st.users st.users ≡ true
      → ((disable_missing_users provider buffers false st).0 ≡ none)
        × ((disable_missing_users provider buffers false st).1.users
            ≡ map (disable_if_missing st.bindings) st.users)
  unfolding disable_missing_users
  disable_missing_users-map st d n = disable_each-map st.users [] st refl d (apart-nil st.users) n
