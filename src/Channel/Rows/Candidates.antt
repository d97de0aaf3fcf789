-- ===== src/Channel/Rows/Candidates.antt =====
-- The candidates and the holders of the floor: server/internal/store/channel_interaction.go.
use leads_engine.Base.{
  Bool, false, ◌&&◌, ◌||◌, Option, none, some, String, ◌==◌, List, [], ◌∷◌, if◌then◌else◌,
}
use leads_engine.Channel.Rows.{
  CandidateRow, CandidateStatus, candidate_open, candidate_withdrawn, FloorRow,
}

unfoldable pub candidate_taken : CandidateRow → List CandidateRow → Bool
candidate_taken new [] = false
candidate_taken new (c ∷ rows) =
    c.id == new.id
    || c.tenant_id == new.tenant_id
      && c.provider == new.provider
      && c.account_id == new.account_id
      && c.event_id == new.event_id
    || candidate_taken new rows

unfoldable pub insert_candidate : CandidateRow → List CandidateRow → Option (List CandidateRow)
unfolding candidate_taken
insert_candidate new rows = if candidate_taken new rows then none else some (new ∷ rows)

-- `UPDATE channel_lead_candidates SET status='withdrawn' ... AND status='open'`
unfoldable pub withdraw : String → String → List CandidateRow → List CandidateRow
withdraw id tenant [] = []
withdraw id tenant (c ∷ rows) =
    let rest = withdraw id tenant rows in
    let withdrawn = record c { status = candidate_withdrawn } in
    if c.id == id && c.tenant_id == tenant
    then elim c.status [ candidate_open ↦ withdrawn ∷ rest | _ ↦ c ∷ rest ]
    else c ∷ rest

unfoldable pub candidate_status : String → String → List CandidateRow → Option CandidateStatus
candidate_status id tenant [] = none
candidate_status id tenant (c ∷ rows) =
    let later = candidate_status id tenant rows in
    if c.id == id && c.tenant_id == tenant then some c.status else later

abbrev pub floor_is : String → String → String → String → FloorRow → Bool
floor_is tenant provider account subject f =
    f.tenant_id == tenant
    && f.provider == provider
    && f.account_id == account
    && f.subject_id == subject

-- `loadChannelFloor`, empty where there is none.
unfoldable pub load_floor : String → String → String → String → List FloorRow → String
load_floor tenant provider account subject [] = ""
load_floor tenant provider account subject (f ∷ rows) =
    let later = load_floor tenant provider account subject rows in
    if floor_is tenant provider account subject f then f.holder else later

unfoldable pub upsert_floor : FloorRow → List FloorRow → List FloorRow
upsert_floor new [] = new ∷ []
upsert_floor new (f ∷ rows) =
    let rest = upsert_floor new rows in
    if floor_is new.tenant_id new.provider new.account_id new.subject_id f
    then record f { holder = new.holder } ∷ rows
    else f ∷ rest

unfoldable pub floor_taken : FloorRow → List FloorRow → Bool
floor_taken new [] = false
floor_taken new (f ∷ rows) =
    floor_is new.tenant_id new.provider new.account_id new.subject_id f || floor_taken new rows

unfoldable pub insert_floor : FloorRow → List FloorRow → Option (List FloorRow)
unfolding floor_taken
insert_floor new rows = if floor_taken new rows then none else some (new ∷ rows)
