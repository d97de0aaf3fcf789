-- ===== src/HandoffSender/Table.antt =====
-- The statements of server/internal/store/opportunity_handoff.go on the table that
-- server/internal/db/migrations/0004_opportunity_handoffs.sql declares. Failures of the database
-- other than a uniqueness violation are not modelled; `at` is the clock of a call.
use leads_engine.Base.{
  ℕ, suc, Bool, false, ◌&&◌, ◌||◌, not, Option, none, some, String, ◌==◌, List, [], ◌∷◌,
  if◌then◌else◌, ltb, nat_eq,
}
use leads_engine.HandoffSender.{delivered, revoked, Snapshot}

unfoldable pub find_row : (Snapshot → Bool) → List Snapshot → Option Snapshot
find_row test [] = none
find_row test (h ∷ rows) = if test h then some h else find_row test rows

abbrev pub is_of : String → String → Snapshot → Bool
is_of opportunity tenant h = h.opportunity_id == opportunity && h.tenant_id == tenant

unfoldable pub by_handoff_id : String → String → List Snapshot → Option Snapshot
unfolding find_row
by_handoff_id handoff tenant rows =
    find_row (λ h. h.handoff_id == handoff && h.tenant_id == tenant) rows

unfoldable pub by_fingerprint : String → String → String → List Snapshot → Option Snapshot
unfolding find_row
by_fingerprint opportunity tenant fingerprint rows =
    find_row (λ h. is_of opportunity tenant h && h.fingerprint == fingerprint) rows

abbrev pub newer : Snapshot → Option Snapshot → Option Snapshot
newer h none = some h
newer h (some k) = if ltb k.source_version h.source_version then some h else some k

-- `ORDER BY source_version DESC LIMIT 1`
unfoldable pub latest : String → String → List Snapshot → Option Snapshot
latest opportunity tenant [] = none
latest opportunity tenant (h ∷ rows) =
    let later = latest opportunity tenant rows in
    if is_of opportunity tenant h then newer h later else later

unfoldable pub next_version : String → String → List Snapshot → ℕ
next_version opportunity tenant rows = elim (latest opportunity tenant rows) [
  | none ↦ 1
  | some h ↦ suc h.source_version
]

-- The table refuses a second row with the same id or hand-off id, or with the same fingerprint or
-- version of one opportunity.
unfoldable pub collides : Snapshot → Snapshot → Bool
collides new h =
    h.id == new.id
    || h.handoff_id == new.handoff_id
    || h.opportunity_id == new.opportunity_id
      && (h.fingerprint == new.fingerprint || nat_eq h.source_version new.source_version)

unfoldable pub any_collides : Snapshot → List Snapshot → Bool
unfolding collides
any_collides new [] = false
any_collides new (h ∷ rows) = collides new h || any_collides new rows

unfoldable pub insert_row : Snapshot → List Snapshot → Option (List Snapshot)
insert_row new rows = if any_collides new rows then none else some (new ∷ rows)

-- `UPDATE ... WHERE id=?`
unfoldable pub change_row : String → (Snapshot → Snapshot) → List Snapshot → List Snapshot
change_row id change [] = []
change_row id change (h ∷ rows) =
    let rest = change_row id change rows in if h.id == id then change h ∷ rest else h ∷ rest

unfoldable pub set_delivery : Snapshot → String → Snapshot → Snapshot
set_delivery new at h = record h {
  local_status = new.local_status;
  draft_ref = new.draft_ref;
  target_status = new.target_status;
  target_dirty = new.target_dirty;
  target_revoked = new.target_revoked;
  last_http_status = new.last_http_status;
  last_error = new.last_error;
  delivered_at = elim new.local_status [ delivered ↦ some at | _ ↦ h.delivered_at ];
  revoked_at = elim new.local_status [ revoked ↦ some at | _ ↦ h.revoked_at ];
  updated_at = at;
}

-- `UpdateOpportunityHandoffDelivery`, with the fields of a snapshot in memory.
unfoldable pub update_delivery : Snapshot → String → List Snapshot → List Snapshot
unfolding change_row set_delivery
update_delivery new at rows = change_row new.id (set_delivery new at) rows

unfoldable pub set_revoked : String → String → Snapshot → Snapshot
set_revoked tenant at h =
    let marked = record h { local_status = revoked; revoked_at = some at; updated_at = at } in
    if not (h.tenant_id == tenant) then h else elim h.local_status [ revoked ↦ h | _ ↦ marked ]

unfoldable pub mark_revoked : String → String → String → List Snapshot → List Snapshot
unfolding change_row set_revoked
mark_revoked id tenant at rows = change_row id (set_revoked tenant at) rows
