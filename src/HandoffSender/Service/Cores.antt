-- ===== src/HandoffSender/Service/Cores.antt =====
-- What a row keeps for ever, and which statements of the table touch it.
use leads_engine.Base.{
  ℕ, Bool, false, ◌≡◌, ◌⊎◌, inl, inr, ◌&&◌, Option, none, some, String, ◌==◌, List, [], ◌∷◌, arith,
  refl, ap, Bool-cases, some-injective, ltb,
}
use leads_engine.HandoffSender.{Snapshot}
use leads_engine.HandoffSender.Table.{
  find_row, change_row, set_delivery, update_delivery, set_revoked, mark_revoked, any_collides,
  insert_row, by_fingerprint, latest, newer, is_of,
}

-- The content of a snapshot, without the state of its delivery.
pub record Core : Type 0 where
  pub id : String
  pub tenant_id : String
  pub opportunity_id : String
  pub source_version : ℕ
  pub fingerprint : String
  pub handoff_id : String
  pub doc_json : String
  pub doc_sha256 : String
  pub principal_id : String
  pub confirmed_by : String
  pub confirmed_at : String

abbrev pub core : Snapshot → Core
core h = record {
  id = h.id;
  tenant_id = h.tenant_id;
  opportunity_id = h.opportunity_id;
  source_version = h.source_version;
  fingerprint = h.fingerprint;
  handoff_id = h.handoff_id;
  doc_json = h.doc_json;
  doc_sha256 = h.doc_sha256;
  principal_id = h.principal_id;
  confirmed_by = h.confirmed_by;
  confirmed_at = h.confirmed_at;
}

unfoldable pub cores : List Snapshot → List Core
cores [] = []
cores (h ∷ rows) = core h ∷ cores rows

-- One of the contents.
abbrev pub Among : Core → List Core → Type 0
Among c [] = ⊥
Among c (d ∷ ds) = (d ≡ c) ⊎ Among c ds

cores-change_row :
    (id : String) (change : Snapshot → Snapshot) (rows : List Snapshot)
    → ((h : Snapshot) → core (change h) ≡ core h)
    → cores (change_row id change rows) ≡ cores rows
unfolding cores change_row
cores-change_row id change [] same = refl
cores-change_row id change (h ∷ rows) same =
    ground (arith, same h, cores-change_row id change rows same)

core-set_delivery :
    (new : Snapshot) (at : String) (h : Snapshot) → core (set_delivery new at h) ≡ core h
unfolding set_delivery
core-set_delivery new at h = refl

core-set_revoked : (tenant at : String) (h : Snapshot) → core (set_revoked tenant at h) ≡ core h
unfolding set_revoked
core-set_revoked tenant at h = ground arith

pub cores-update_delivery :
    (new : Snapshot) (at : String) (rows : List Snapshot)
    → cores (update_delivery new at rows) ≡ cores rows
unfolding update_delivery
cores-update_delivery new at rows =
    cores-change_row new.id (set_delivery new at) rows (core-set_delivery new at)

pub cores-mark_revoked :
    (id tenant at : String) (rows : List Snapshot)
    → cores (mark_revoked id tenant at rows) ≡ cores rows
unfolding mark_revoked
cores-mark_revoked id tenant at rows =
    cores-change_row id (set_revoked tenant at) rows (core-set_revoked tenant at)

-- One of the rows.
abbrev pub RowIn : Snapshot → List Snapshot → Type 0
RowIn h [] = ⊥
RowIn h (x ∷ rows) = (x ≡ h) ⊎ RowIn h rows

pub RowIn-Among : (h : Snapshot) (rows : List Snapshot) → RowIn h rows → Among (core h) (cores rows)
unfolding cores
RowIn-Among h [] m = elim m [ ]
RowIn-Among h (x ∷ rows) (inl e) = inl (ap core e)
RowIn-Among h (x ∷ rows) (inr m) = inr (RowIn-Among h rows m)

-- A row that a statement finds is a row.
find_row-RowIn :
    (test : Snapshot → Bool) (rows : List Snapshot) (h : Snapshot)
    → find_row test rows ≡ some h
    → RowIn h rows
unfolding find_row
find_row-RowIn test [] h e = absurd (ground arith)
find_row-RowIn test (x ∷ rows) h e = elim (Bool-cases (test x)) [
  | inl hit ↦ inl (some-injective (rw hit at e))
  | inr miss ↦ inr (find_row-RowIn test rows h (rw miss at e))
]

pub by_fingerprint-RowIn :
    (opportunity tenant fingerprint : String) (rows : List Snapshot) (h : Snapshot)
    → by_fingerprint opportunity tenant fingerprint rows ≡ some h
    → RowIn h rows
unfolding by_fingerprint
by_fingerprint-RowIn opportunity tenant fingerprint rows h e =
    find_row-RowIn (λ x. is_of opportunity tenant x && x.fingerprint == fingerprint) rows h e

newer_cases : (x h : Snapshot) (o : Option Snapshot) → newer x o ≡ some h → (x ≡ h) ⊎ (o ≡ some h)
newer_cases x h none e = inl (some-injective e)
newer_cases x h (some k) e = elim (Bool-cases (ltb k.source_version x.source_version)) [
  | inl less ↦ inl (some-injective (rw less at e))
  | inr more ↦ inr (rw more at e)
]

pub latest-RowIn :
    (opportunity tenant : String) (rows : List Snapshot) (h : Snapshot)
    → latest opportunity tenant rows ≡ some h
    → RowIn h rows
unfolding latest
latest-RowIn opportunity tenant [] h e = absurd (ground arith)
latest-RowIn opportunity tenant (x ∷ rows) h e = elim (Bool-cases (is_of opportunity tenant x)) [
  | inl own ↦ elim (newer_cases x h (latest opportunity tenant rows) (rw own at e)) [
    | inl same ↦ inl same
    | inr later ↦ inr (latest-RowIn opportunity tenant rows h later)
  ]
  | inr other ↦ inr (latest-RowIn opportunity tenant rows h (rw other at e))
]

pub insert_row-Free :
    (new : Snapshot) (rows rows' : List Snapshot)
    → insert_row new rows ≡ some rows'
    → (any_collides new rows ≡ false) × (new ∷ rows ≡ rows')
unfolding insert_row
insert_row-Free new rows rows' e = elim (Bool-cases (any_collides new rows)) [
  | inl hit ↦ absurd (ground arith)
  | inr free ↦ (free, some-injective (rw free at e))
]
