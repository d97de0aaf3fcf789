-- ===== src/HandoffSender/Service/Asks.antt =====
-- When `Revoke` revokes.
use leads_engine.Base.{
  Bool, true, false, ◌≡◌, inl, inr, ◌&&◌, ◌||◌, not, Option, none, some, String, ◌==◌, List, arith,
  refl, ap, ◌∙◌, nat_eq, Option-cases, eq_iff,
}
use leads_engine.HandoffSender.{
  Snapshot, Config, Reply, no_answer, answered, TargetProjection, revoked, delivery_failed,
}
use leads_engine.HandoffSender.Receiver.{has_channel, look_up}
use leads_engine.HandoffSender.Table.{latest, mark_revoked}
use leads_engine.HandoffSender.Service.Latest.{
  lookup_refusal, guard_refusal, revoke_row, revoke_latest, revoke,
}
use leads_engine.HandoffSender.Service.Statuses.{is_live, Status-cases}
use leads_engine.HandoffSender.Service.{Error, ShowStep}

-- A status that the receiver's draft has.
abbrev pub is_draft : String → Bool
is_draft status = status == "" || status == "draft"

-- The receiver's answer says that it keeps no accepted or edited hand-off: it knows none, or a
-- revoked one, or a draft that nobody touched.
abbrev pub says_untouched : Config → Reply TargetProjection → Bool
says_untouched cfg (no_answer why) = false
says_untouched cfg (answered status none code) = has_channel cfg && nat_eq status 404
says_untouched cfg (answered status (some p) code) =
    has_channel cfg
    && (nat_eq status 404
        || nat_eq status 200 && (p.is_revoked || is_draft p.status && not p.dirty))

-- The snapshot may be revoked, by what it holds and what the receiver answers.
abbrev pub may_revoke : Config → Reply TargetProjection → Snapshot → Bool
may_revoke cfg reply h = is_draft h.target_status && elim h.local_status [
  | delivery_failed ↦ true
  | revoked ↦ false
  | _ ↦ says_untouched cfg reply
]

abbrev pub no_error : Option Error → Bool
no_error none = true
no_error (some _) = false

-- The receiver's answer is against the revocation unless the hand-off is untouched there.
lookup_refusal-untouched :
    (cfg : Config) (reply : Reply TargetProjection)
    → no_error (lookup_refusal (look_up cfg reply)) ≡ says_untouched cfg reply
unfolding lookup_refusal look_up
lookup_refusal-untouched cfg (no_answer why) = refl
lookup_refusal-untouched cfg (answered status none code) = ground arith
lookup_refusal-untouched cfg (answered status (some p) code) = ground arith

pub guard_refusal-may_revoke :
    (cfg : Config) (reply : Reply TargetProjection) (h : Snapshot)
    → is_live h.local_status ≡ true
    → (is_draft h.target_status && no_error (guard_refusal cfg reply h.local_status))
      ≡ may_revoke cfg reply h
unfolding guard_refusal
guard_refusal-may_revoke cfg reply h live =
    let said = lookup_refusal-untouched cfg reply in
    elim (Status-cases h.local_status) [
      | inl e ↦ absurd (ground arith)
      | inr (inl e) ↦ rw e (rw said refl)
      | inr (inr (_, inl e)) ↦ rw e (rw said refl)
      | inr (inr (_, inr e)) ↦ rw e refl
    ]

-- The row is marked without an error where the snapshot may be revoked. Elsewhere the table stays
-- and the caller gets an error.
abbrev Guarded :
    Config → String → Reply TargetProjection → List Snapshot → String → Snapshot → ShowStep → Type 0
Guarded cfg at reply rows tenant h st =
    (may_revoke cfg reply h ≡ true
      → (st.rows ≡ mark_revoked h.id tenant at rows) × (no_error st.answer.1 ≡ true))
    × (may_revoke cfg reply h ≡ false → (st.rows ≡ rows) × (no_error st.answer.1 ≡ false))

revoke_latest-Guarded :
    (cfg : Config) (at : String) (reply : Reply TargetProjection) (rows : List Snapshot)
    (tenant : String) (h : Snapshot)
    → is_live h.local_status ≡ true
    → Guarded cfg at reply rows tenant h (revoke_latest cfg at reply rows tenant h)
unfolding revoke_latest revoke_row
revoke_latest-Guarded cfg at reply rows tenant h live =
    let guard = guard_refusal-may_revoke cfg reply h live in
    let blank = eq_iff h.target_status "" in
    elim (Option-cases (guard_refusal cfg reply h.local_status)) [
      | inl e ↦ (λ m. ground arith, λ m. ground arith)
      | inr (why, e) ↦ (λ m. ground arith, λ m. ground arith)
    ]

-- `Revoke` marks the latest snapshot, where it is not revoked yet, exactly if the receiver's status
-- that it holds is empty or `draft` and, unless its delivery failed, the receiver now knows no such
-- hand-off, or a revoked one, or an untouched draft. Otherwise the table stays and the caller gets
-- an error, also where the receiver cannot be reached.
pub revoke-Guarded :
    (cfg : Config) (at : String) (reply : Reply TargetProjection) (rows : List Snapshot)
    (opportunity tenant : String) (h : Snapshot)
    → latest opportunity tenant rows ≡ some h
    → is_live h.local_status ≡ true
    → (may_revoke cfg reply h ≡ true
        → ((revoke cfg at reply rows opportunity tenant).rows ≡ mark_revoked h.id tenant at rows)
          × ((revoke cfg at reply rows opportunity tenant).answer.1 ≡ none))
      × (may_revoke cfg reply h ≡ false
          → ((revoke cfg at reply rows opportunity tenant).rows ≡ rows)
            × ((e : Error) × ((revoke cfg at reply rows opportunity tenant).answer.1 ≡ some e)))
unfolding revoke
revoke-Guarded cfg at reply rows opportunity tenant h found live =
    let st = revoke cfg at reply rows opportunity tenant in
    let (allowed, against) = revoke_latest-Guarded cfg at reply rows tenant h live in
    let same : st ≡ revoke_latest cfg at reply rows tenant h = elim (Status-cases h.local_status) [
      | inl e ↦ absurd (ground arith)
      | inr (inl e) ↦ ground arith
      | inr (inr (_, inl e)) ↦ ground arith
      | inr (inr (_, inr e)) ↦ ground arith
    ] in
    (
      λ m.
          let (kept, clean) = allowed m in
          (
            ap (λ (s : ShowStep). s.rows) same ∙ kept,
            elim (Option-cases st.answer.1) [ inl e ↦ e | inr (e, f) ↦ absurd (ground arith) ],
          ),
      λ m.
          let (kept, refused) = against m in
          (
            ap (λ (s : ShowStep). s.rows) same ∙ kept,
            elim (Option-cases st.answer.1) [ inl e ↦ absurd (ground arith) | inr (e, f) ↦ (e, f) ],
          ),
    )
