-- ===== src/Session/Listing.antt =====
-- internal/session/session.go, ListAll: what the list of sessions holds, and what the index keeps.
use mathlib.Core.List.{Memᴰ}
use one_auth.Base.{
  ℕ, ◌≡◌, ◌≢◌, ◌↔◌, ◌⊎◌, inl, inr, refl, sym, ap, false, none, some, List, [], ◌∷◌, Text, text_eq,
  text_eq_sound, text_eq_iff, ◌∙◌, arith, Option-cases, if_intro, if_elim, ltb,
}
use one_auth.Model.Payload.{SessionData}
use one_auth.Store.{StoreOps}
use one_auth.Session.{
  get_session, collect, forget, forget_all, insert_newest, sort_newest, list_all,
}

ne_of_text_eq : (s t : Text) → text_eq s t ≡ false → s ≢ t
ne_of_text_eq s t n e = absurd (ground (arith, text_eq_iff s t, e))

insert-Mem :
    (d e : SessionData) (es : List SessionData) → Memᴰ d (insert_newest e es) → (d ≡ e) ⊎ Memᴰ d es
unfolding insert_newest
insert-Mem d e [] m = elim m [ Memᴰ.head q ↦ inl q | Memᴰ.tail m ↦ elim m [ ] ]
insert-Mem d e (x ∷ es) m =
    elim (if_elim (λ (l : List SessionData). Memᴰ d l) (ltb e.created_at x.created_at) m) [
      | inl (_, m) ↦ elim m [
        | Memᴰ.head q ↦ inr (Memᴰ.head q)
        | Memᴰ.tail m ↦ elim (insert-Mem d e es m) [ inl q ↦ inl q | inr m ↦ inr (Memᴰ.tail m) ]
      ]
      | inr (_, m) ↦ elim m [ Memᴰ.head q ↦ inl q | Memᴰ.tail m ↦ inr m ]
    ]

Mem-insert :
    (d e : SessionData) (es : List SessionData) → (d ≡ e) ⊎ Memᴰ d es → Memᴰ d (insert_newest e es)
unfolding insert_newest
Mem-insert d e [] (inl q) = Memᴰ.head q
Mem-insert d e [] (inr m) = elim m [ ]
Mem-insert d e (x ∷ es) m =
    if_intro (λ (l : List SessionData). Memᴰ d l) (ltb e.created_at x.created_at)
      (λ _. elim m [
        | inl q ↦ Memᴰ.tail (Mem-insert d e es (inl q))
        | inr m ↦ elim m [
          | Memᴰ.head q ↦ Memᴰ.head q
          | Memᴰ.tail m ↦ Memᴰ.tail (Mem-insert d e es (inr m))
        ]
      ])
      (λ _. elim m [ inl q ↦ Memᴰ.head q | inr m ↦ Memᴰ.tail m ])

sort_iff : (d : SessionData) (ds : List SessionData) → Memᴰ d (sort_newest ds) ↔ Memᴰ d ds
unfolding sort_newest
sort_iff d [] = (λ m. m, λ m. m)
sort_iff d (e ∷ es) = (
  λ m. elim (insert-Mem d e (sort_newest es) m) [
    | inl q ↦ Memᴰ.head q
    | inr m ↦ Memᴰ.tail ((sort_iff d es).0 m)
  ],
  λ m.
      Mem-insert d e (sort_newest es)
        (elim m [ Memᴰ.head q ↦ inl q | Memᴰ.tail m ↦ inr ((sort_iff d es).1 m) ]),
)

forget_iff : (x sid : Text) (is : List Text) → Memᴰ x (forget sid is) ↔ (Memᴰ x is × (x ≢ sid))
unfolding forget
forget_iff x sid [] = (λ m. elim m [ ], λ (m, n). m)
forget_iff x sid (i ∷ is) = (
  λ m. elim (if_elim (λ (l : List Text). Memᴰ x l) (text_eq i sid) m) [
    | inl (_, m) ↦ let (m, n) = (forget_iff x sid is).0 m in (Memᴰ.tail m, n)
    | inr (e, m) ↦ elim m [
      | Memᴰ.head q ↦ (Memᴰ.head q, λ p. ne_of_text_eq i sid e (sym q ∙ p))
      | Memᴰ.tail m ↦ let (m, n) = (forget_iff x sid is).0 m in (Memᴰ.tail m, n)
    ]
  ],
  λ (m, n).
      if_intro (λ (l : List Text). Memᴰ x l) (text_eq i sid)
        (λ e. elim m [
          | Memᴰ.head q ↦ absurd (n (q ∙ text_eq_sound i sid e))
          | Memᴰ.tail m ↦ (forget_iff x sid is).1 (m, n)
        ])
        (λ _. elim m [
          | Memᴰ.head q ↦ Memᴰ.head q
          | Memᴰ.tail m ↦ Memᴰ.tail ((forget_iff x sid is).1 (m, n))
        ]),
)

forget_all_iff :
    (x : Text) (stale index : List Text)
    → Memᴰ x (forget_all stale index) ↔ (Memᴰ x index × (Memᴰ x stale → ⊥))
unfolding forget_all
forget_all_iff x [] index = (λ m. (m, λ n. elim n [ ]), λ (m, n). m)
forget_all_iff x (sid ∷ stale) index = (
  λ m.
      let (m, n) = (forget_all_iff x stale (forget sid index)).0 m in
      let (m', n') = (forget_iff x sid index).0 m in
      (m', λ k. elim k [ Memᴰ.head q ↦ n' q | Memᴰ.tail k ↦ n k ]),
  λ (m, n).
      (forget_all_iff x stale (forget sid index)).1
        ((forget_iff x sid index).1 (m, λ q. n (Memᴰ.head q)), λ k. n (Memᴰ.tail k)),
)

module _ {S : Type 0} (o : StoreOps S) (now : ℕ) (s : S) where
  found_iff :
      (d : SessionData) (ids : List Text)
      → Memᴰ d (collect o now ids s).0
        ↔ ((sid : Text) × Memᴰ sid ids × (get_session o now sid s ≡ some d))
  unfolding collect
  found_iff d [] = (λ m. elim m [ ], λ (sid, m, e). elim m [ ])
  found_iff d (i ∷ ids) = elim (Option-cases (get_session o now i s)) [
    | inl n ↦
        rw (collect, n)
          (
            λ m. let (sid, k, g) = (found_iff d ids).0 m in (sid, Memᴰ.tail k, g),
            λ (sid, k, g). (found_iff d ids).1 (elim k [
              | Memᴰ.head q ↦ absurd (ground (arith, ap (λ (t : Text). get_session o now t s) q))
              | Memᴰ.tail k ↦ (sid, k, g)
            ]),
          )
    | inr (x, e) ↦
        rw (collect, e)
          (
            λ m. elim m [
              | Memᴰ.head q ↦ (i, Memᴰ.head refl, rw (q) e)
              | Memᴰ.tail m ↦ let (sid, k, g) = (found_iff d ids).0 m in (sid, Memᴰ.tail k, g)
            ],
            λ (sid, k, g). elim k [
              | Memᴰ.head q ↦ Memᴰ.head (ground (arith, ap (λ (t : Text). get_session o now t s) q))
              | Memᴰ.tail k ↦ Memᴰ.tail ((found_iff d ids).1 (sid, k, g))
            ],
          )
  ]

  stale_iff :
      (x : Text) (ids : List Text)
      → Memᴰ x (collect o now ids s).1 ↔ (Memᴰ x ids × (get_session o now x s ≡ none))
  unfolding collect
  stale_iff x [] = (λ m. elim m [ ], λ (m, e). m)
  stale_iff x (i ∷ ids) = elim (Option-cases (get_session o now i s)) [
    | inl n ↦
        rw (collect, n)
          (
            λ m. elim m [
              | Memᴰ.head q ↦ (Memᴰ.head q, ap (λ (t : Text). get_session o now t s) q ∙ n)
              | Memᴰ.tail m ↦ let (k, g) = (stale_iff x ids).0 m in (Memᴰ.tail k, g)
            ],
            λ (k, g). elim k [
              | Memᴰ.head q ↦ Memᴰ.head q
              | Memᴰ.tail k ↦ Memᴰ.tail ((stale_iff x ids).1 (k, g))
            ],
          )
    | inr (d, e) ↦
        rw (collect, e)
          (
            λ m. let (k, g) = (stale_iff x ids).0 m in (Memᴰ.tail k, g),
            λ (k, g). (stale_iff x ids).1 (elim k [
              | Memᴰ.head q ↦ absurd (ground (arith, ap (λ (t : Text). get_session o now t s) q))
              | Memᴰ.tail k ↦ (k, g)
            ]),
          )
  ]

  -- ListAll lists exactly the sessions that the store still holds under an id of the index, and
  -- keeps in the index exactly the ids of such sessions.
  pub list_all_iff :
      (index : List Text)
      → ((d : SessionData)
          → Memᴰ d (list_all o now index s).0
            ↔ ((sid : Text) × Memᴰ sid index × (get_session o now sid s ≡ some d)))
        × ((sid : Text)
            → Memᴰ sid (list_all o now index s).1
              ↔ (Memᴰ sid index × (get_session o now sid s ≢ none)))
  unfolding list_all
  list_all_iff index = (
    λ d. (
      λ m. (found_iff d index).0 ((sort_iff d (collect o now index s).0).0 m),
      λ k. (sort_iff d (collect o now index s).0).1 ((found_iff d index).1 k),
    ),
    λ sid. (
      λ m.
          let (k, n) = (forget_all_iff sid (collect o now index s).1 index).0 m in
          (k, λ e. n ((stale_iff sid index).1 (k, e))),
      λ (k, n).
          (forget_all_iff sid (collect o now index s).1 index).1
            (k, λ m. n ((stale_iff sid index).0 m).1),
    ),
  )
