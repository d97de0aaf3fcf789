-- ===== src/HandoffSender/Service/Newest.antt =====
-- What `Retry` posts.
use leads_engine.Base.{
  true, ◌≡◌, ◌⊎◌, inl, inr, none, some, String, List, [], ◌∷◌, ◌≤◌, arith, subst, All, ltb,
  Bool-cases, Option-cases, some-injective, eq_iff,
}
use leads_engine.HandoffSender.{Snapshot, Config, Reply, DeliveryResult}
use leads_engine.HandoffSender.Table.{is_of, latest}
use leads_engine.HandoffSender.Service.{ConfirmStep, sent_if, deliver_step}
use leads_engine.HandoffSender.Service.Latest.{retry_latest, retry}
use leads_engine.HandoffSender.Service.Statuses.{is_live}

-- A row of the opportunity is not of a later version.
abbrev pub NotAfter : String → String → Snapshot → Snapshot → Type 0
NotAfter opportunity tenant h x =
    is_of opportunity tenant x ≡ true → x.source_version ≤ h.source_version

All-NotAfter :
    (opportunity tenant : String) (h k : Snapshot) (rows : List Snapshot)
    → h.source_version ≤ k.source_version
    → All (NotAfter opportunity tenant h) rows
    → All (NotAfter opportunity tenant k) rows
All-NotAfter opportunity tenant h k [] le all = tt
All-NotAfter opportunity tenant h k (x ∷ rows) le (here, all) =
    (λ own. let low = here own in omega arith, All-NotAfter opportunity tenant h k rows le all)

-- No row of the opportunity.
latest-none :
    (opportunity tenant : String) (h : Snapshot) (rows : List Snapshot)
    → latest opportunity tenant rows ≡ none
    → All (NotAfter opportunity tenant h) rows
unfolding latest
latest-none opportunity tenant h [] e = tt
latest-none opportunity tenant h (x ∷ rows) e = elim (Bool-cases (is_of opportunity tenant x)) [
  | inl own ↦ absurd (elim (Option-cases (latest opportunity tenant rows)) [
    | inl n ↦ ground arith
    | inr (y, s) ↦ ground arith
  ])
  | inr other ↦
      (λ own. absurd (ground arith), latest-none opportunity tenant h rows (rw other at e))
]

latest-NotAfter :
    (opportunity tenant : String) (rows : List Snapshot) (h : Snapshot)
    → latest opportunity tenant rows ≡ some h
    → (is_of opportunity tenant h ≡ true) × All (NotAfter opportunity tenant h) rows
unfolding latest
latest-NotAfter opportunity tenant [] h e = absurd (ground arith)
latest-NotAfter opportunity tenant (x ∷ rows) h e = elim (Bool-cases (is_of opportunity tenant x)) [
  | inr other ↦
      let (own, all) = latest-NotAfter opportunity tenant rows h (rw other at e) in
      (own, (λ mine. absurd (ground arith), all))
  | inl mine ↦ elim (Option-cases (latest opportunity tenant rows)) [
    | inl n ↦
        let same : x ≡ h = some-injective (ground arith) in
        (
          subst (λ (y : Snapshot). is_of opportunity tenant y ≡ true) same mine,
          (
            (λ _. subst (λ (y : Snapshot). x.source_version ≤ y.source_version) same (omega arith)),
            latest-none opportunity tenant h rows n,
          ),
        )
    | inr (k, s) ↦
        let (own, all) = latest-NotAfter opportunity tenant rows k s in
        elim (Bool-cases (ltb k.source_version x.source_version)) [
          | inl less ↦
              let same : x ≡ h = some-injective (ground arith) in
              (
                subst (λ (y : Snapshot). is_of opportunity tenant y ≡ true) same mine,
                (
                  (λ _.
                      subst (λ (y : Snapshot). x.source_version ≤ y.source_version) same
                        (omega arith)),
                  All-NotAfter opportunity tenant k h rows
                      (subst (λ (y : Snapshot). k.source_version ≤ y.source_version) same
                        (ground arith))
                      all,
                ),
              )
          | inr more ↦
              let same : k ≡ h = some-injective (ground arith) in
              (
                subst (λ (y : Snapshot). is_of opportunity tenant y ≡ true) same own,
                (
                  (λ _.
                      subst (λ (y : Snapshot). x.source_version ≤ y.source_version) same
                        (ground arith)),
                  subst (λ (y : Snapshot). All (NotAfter opportunity tenant y) rows) same all,
                ),
              )
        ]
  ]
]

-- What a retry of the latest snapshot posts is that snapshot, and it is not revoked.
retry_latest-posts :
    (cfg : Config) (at : String) (reply : Reply DeliveryResult) (rows : List Snapshot)
    (requested : String) (h p : Snapshot)
    → (retry_latest cfg at reply rows requested h).posted ≡ some p
    → (h ≡ p) × (is_live h.local_status ≡ true) × ((requested ≡ "") ⊎ (requested ≡ h.handoff_id))
unfolding retry_latest deliver_step sent_if
retry_latest-posts cfg at reply rows requested h p e =
    let blank = eq_iff requested "" in
    let own = eq_iff requested h.handoff_id in
    (some-injective (ground arith), ground arith, ground arith)

-- What `Retry` posts is a snapshot of the asked opportunity and tenant that is not revoked, no
-- snapshot of the opportunity has a later version, and a hand-off that the caller names is it.
pub retry-newest :
    (cfg : Config) (at : String) (reply : Reply DeliveryResult) (rows : List Snapshot)
    (opportunity tenant requested : String) (p : Snapshot)
    → (retry cfg at reply rows opportunity tenant requested).posted ≡ some p
    → (is_of opportunity tenant p ≡ true)
      × All (NotAfter opportunity tenant p) rows
      × (is_live p.local_status ≡ true)
      × ((requested ≡ "") ⊎ (requested ≡ p.handoff_id))
unfolding retry
retry-newest cfg at reply rows opportunity tenant requested p e =
    elim (Option-cases (latest opportunity tenant rows)) [
      | inl n ↦ absurd (ground arith)
      | inr (h, s) ↦
          let (own, all) = latest-NotAfter opportunity tenant rows h s in
          let moved : retry cfg at reply rows opportunity tenant requested
              ≡ retry_latest cfg at reply rows requested h =
            ground arith in
          let (same, live, asked) =
            retry_latest-posts cfg at reply rows requested h p
              (subst (λ (st : ConfirmStep). st.posted ≡ some p) moved e) in
          subst
            (λ (y : Snapshot).
              (is_of opportunity tenant y ≡ true)
              × All (NotAfter opportunity tenant y) rows
              × (is_live y.local_status ≡ true)
              × ((requested ≡ "") ⊎ (requested ≡ y.handoff_id)))
            same (own, all, live, asked)
    ]
