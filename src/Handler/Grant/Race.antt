-- ===== src/Handler/Grant/Race.antt =====
-- Two exchanges of one code at once: handleAuthCodeGrant reads the code and deletes it by separate
-- store calls, between which another request may run.
use one_auth.Base.{
  ℕ, ◌+◌, ◌≤◌, ◌≡◌, inl, inr, Bool-cases, seconds, refl, sym, ap, subst, ◌∙◌, true, some, none,
  List, [], ◌∷◌, Text, str, text_eq_refl, ℤ, is_positive, pos_part, arith,
}
use one_auth.Model.Payload.{Payload, AuthCodeData, refresh}
use one_auth.Model.User.{User, get_by_id}
use one_auth.Model.Client.{OAuth2Client, normalize_redirect_uri}
use one_auth.Store.{StoreOps, IsStore}
use one_auth.Oauth.Code.{code_key, delete, fetched, refused, not_found, save, fetch}
use one_auth.Oauth.Code.Laws.{stamped, fetch-save, fetch-missing}
use one_auth.Oauth.Token.{refresh_key, positive_or, save_refresh_token}
use one_auth.Handler.Env.{Env, World, Fresh, Request, query, parse_or_nil}
use one_auth.Handler.Grant.{
  TokenReply, TokenResponse, tokens, bad_code, code_response, log_access, access_for, finish_code,
  issue_for_code, redeem, auth_code_grant,
}
use one_auth.Handler.Grant.Exchange.{Proved, redeem-deleted}
use one_auth.Handler.Grant.Complete.{verify_exchange_complete}

-- How far a request has come
pub data Phase : Type 0 where
  waiting : Phase
  holding : AuthCodeData → Phase
  answered : TokenReply → Phase

-- The request that moves, and the instant
pub data Turn : Type 0 where
  left : ℕ → Turn
  right : ℕ → Turn

-- What a request brings: its form and cookies, and what is drawn for it
pub record Call : Type 0 where
  pub fresh : Fresh
  pub request : Request

pub record Both (S : Type 0) : Type 0 where
  pub on_left : Phase
  pub on_right : Phase
  pub world : World S

module _ {S : Type 0} (o : StoreOps S) (env : Env) (c : OAuth2Client) where
  -- handleAuthCodeGrant up to the read of the code, and from there to the answer
  unfoldable pub move : ℕ → Call → Phase → World S → Phase × World S
  move now q waiting w = elim (fetch o now (query q.request (str "code")) c.client_id w.kv) [
    | refused e ↦ (answered (bad_code e), w)
    | fetched d ↦ (holding d, w)
  ]
  move now q (holding d) w =
      let (a, w') = redeem o env now q.fresh q.request c d w in (answered a, w')
  move now q (answered a) w = (answered a, w)

  unfoldable pub turn : Call → Call → Turn → Both S → Both S
  turn q q' (left now) b =
      let (p, w) = move now q b.on_left b.world in record b { on_left = p; world = w }
  turn q q' (right now) b =
      let (p, w) = move now q' b.on_right b.world in record b { on_right = p; world = w }

  unfoldable pub run_turns : Call → Call → List Turn → Both S → Both S
  unfolding turn
  run_turns q q' [] b = b
  run_turns q q' (t ∷ ts) b = run_turns q q' ts (turn q q' t b)

  move-answered :
      (now : ℕ) (q : Call) (a : TokenReply) (w : World S)
      → move now q (answered a) w ≡ (answered a, w)
  unfolding move
  move-answered now q a w = refl

  -- Two moves of a request without another between them are the whole handler.
  pub move-move :
      (now : ℕ) (q : Call) (w : World S)
      → let (p, w') = move now q waiting w in
        move now q p w' ≡ (
          answered (auth_code_grant o env now q.fresh q.request c w).0,
          (auth_code_grant o env now q.fresh q.request c w).1,
        )
  unfolding move auth_code_grant
  move-move now q w = ground arith

abbrev pub start : {S : Type 0} → World S → Both S
start w = record { on_left = waiting; on_right = waiting; world = w }

abbrev pub HasTokens : Phase → Type 0
HasTokens p = (resp : TokenResponse) × (p ≡ answered (tokens resp))

module _ {S : Type 0} (o : StoreOps S) (laws : IsStore o) (env : Env) (c : OAuth2Client) (u : User)
    (d : AuthCodeData) (client : d.client_id ≡ c.client_id)
    (writes : (now : ℕ) (k : Text) (v : Payload) (ttl : ℤ) (s : S)
      → (t : S) × (o.set now k v ttl s ≡ some t))
    (user : get_by_id (parse_or_nil env d.user_id) env.users ≡ some u)
    (signs : (now : ℕ) (fresh : Fresh)
      → (access : Text) × (access_for env now fresh c u d.user_id d.scope ≡ some access)) where
  -- A request for the code, with its redirect URI and its proof
  abbrev pub Presents : ℕ → Call → Type 0
  Presents saved_at q =
      (query q.request (str "code") ≡ d.code)
      × ((d.redirect_uri ≡ normalize_redirect_uri (query q.request (str "redirect_uri")))
          × Proved env q.request (stamped saved_at d))

  -- The refresh token, if the client wants one, is written.
  finishes :
      (now : ℕ) (fresh : Fresh) (d' : AuthCodeData) (access : Text) (w : World S)
      → (resp : TokenResponse) × ((finish_code o env now fresh c d' u access w).0 ≡ tokens resp)
  unfolding finish_code save_refresh_token
  finishes now fresh d' access w =
      let saved =
        writes now (refresh_key fresh.refresh_token)
          (refresh (record {
            token = fresh.refresh_token;
            user_id = d'.user_id;
            client_id = c.client_id;
            scope = d'.scope;
          }))
          (positive_or (seconds c.refresh_token_ttl) env.ts.refresh_ttl) w.kv in
      elim (Bool-cases c.issue_refresh_token) [
        | inl y ↦ (
          code_response env now fresh c d' u access (some fresh.refresh_token),
          ground (arith, saved.1),
        )
        | inr n ↦ (code_response env now fresh c d' u access none, ground arith)
      ]

  redeems :
      (saved_at now : ℕ) (q : Call) (w : World S)
      → Presents saved_at q
      → HasTokens (move o env c now q (holding (stamped saved_at d)) w).0
  unfolding move redeem issue_for_code
  redeems saved_at now q w (code, (uri, proof)) =
      let d' = stamped saved_at d in
      let (access, signed) = signs now q.fresh in
      let v = verify_exchange_complete env q.request d' u uri proof user in
      let deleted : World S = record w { kv = delete o (query q.request (str "code")) w.kv } in
      let (resp, answer) =
        finishes now q.fresh d' access (log_access env q.request c d.user_id u deleted) in
      (resp, ap answered (rw (v, redeem, signed, issue_for_code) answer))

  module _ (saved_at : ℕ) (ttl : ℤ) (before : S) (w : World S)
      (saved : save o saved_at ttl d before ≡ some w.kv) (positive : is_positive ttl ≡ true) where
    finds :
        (now : ℕ) (q : Call)
        → query q.request (str "code") ≡ d.code
        → now ≤ saved_at + pos_part ttl
        → fetch o now (query q.request (str "code")) c.client_id w.kv ≡ fetched (stamped saved_at d)
    finds now q code in_time = rw (code) (
        (fetch-save o laws saved_at now ttl d c.client_id before w.kv saved positive).0 in_time
        ∙ rw (client, text_eq_refl c.client_id) refl)

    reads :
        (now : ℕ) (q : Call)
        → query q.request (str "code") ≡ d.code
        → now ≤ saved_at + pos_part ttl
        → move o env c now q waiting w ≡ (holding (stamped saved_at d), w)
    unfolding move
    reads now q code in_time = rw (finds now q code in_time, move) refl

    taken :
        (now later : ℕ) (q q' : Call)
        → query q'.request (str "code") ≡ query q.request (str "code")
        → let w' = (move o env c now q (holding (stamped saved_at d)) w).1 in
          move o env c later q' waiting w' ≡ (answered (bad_code not_found), w')
    unfolding move
    taken now later q q' same =
        let w' = (move o env c now q (holding (stamped saved_at d)) w).1 in
        let gone = redeem-deleted o env now q.fresh q.request c laws (stamped saved_at d) later w in
        rw
          (
            fetch-missing o later (query q'.request (str "code")) c.client_id w'.kv
                (subst (λ (x : Text). o.get later (code_key x) w'.kv ≡ none) (sym same) gone),
            move,
          )
          refl

    -- A code is saved, with a positive lifetime, for a client, and two requests of that client bring
    -- the code, its redirect URI and its proof. If both read the code within its lifetime before either
    -- deletes it, both get tokens. If the second reads it only after the first was answered, the first
    -- gets tokens and the second is told that the code is not found. (The keys of the server sign, the
    -- store takes every write, and the user of the code exists.)
    pub race :
        (q q' : Call)
        → Presents saved_at q
        → Presents saved_at q'
        → (t1 t2 t3 t4 : ℕ) → t1 ≤ saved_at + pos_part ttl
        → t2 ≤ saved_at + pos_part ttl
        → let both = λ (ts : List Turn). run_turns o env c q q' ts (start w) in
          let crossed = both (left t1 ∷ right t2 ∷ left t3 ∷ right t4 ∷ []) in
          let in_turn = both (left t1 ∷ left t2 ∷ right t3 ∷ right t4 ∷ []) in
          (HasTokens crossed.on_left × HasTokens crossed.on_right)
          × (HasTokens in_turn.on_left × (in_turn.on_right ≡ answered (bad_code not_found)))
    unfolding run_turns turn
    race q q' p p' t1 t2 t3 t4 in_time in_time' =
        let w1 = (move o env c t3 q (holding (stamped saved_at d)) w).1 in
        let w2 = (move o env c t2 q (holding (stamped saved_at d)) w).1 in
        let read = reads t1 q p.0 in_time in
        let read' = reads t2 q' p'.0 in_time' in
        let gone = taken t2 t3 q q' (p'.0 ∙ sym p.0) in
        (
          (
            rw (read, read') (redeems saved_at t3 q w p),
            rw (read, read') (redeems saved_at t4 q' w1 p'),
          ),
          (
            rw (read) (redeems saved_at t2 q w p),
            rw (read, gone, move-answered o env c t4 q' (bad_code not_found) w2) refl,
          ),
        )
