-- ===== src/HandoffSender/Service/SameBytes.antt =====
-- Every post of a hand-off carries the same stored document.
use leads_engine.Base.{
  false, ◌≡◌, ◌⊎◌, inl, inr, Option, some, String, ◌==◌, List, [], ◌∷◌, arith, ap, sym, ◌∙◌, subst,
  All, nat_eq, eq_iff, Bool-cases, some-injective,
}
use leads_engine.HandoffSender.{Snapshot, Config}
use leads_engine.HandoffSender.Table.{collides, any_collides}
use leads_engine.HandoffSender.Receiver.{booked}
use leads_engine.HandoffSender.Service.{booked_rows}
use leads_engine.HandoffSender.Service.Latest.{projected_onto}
use leads_engine.HandoffSender.Service.Confirm.{Facts}
use leads_engine.HandoffSender.Service.Cores.{
  Core, core, cores, Among, RowIn-Among, cores-update_delivery, cores-mark_revoked,
}
use leads_engine.HandoffSender.Service.Moves.Calls.{rows_after-Move}
use leads_engine.HandoffSender.Service.Orders.{Posts}
use leads_engine.HandoffSender.Service.Moves.{Move, stays, delivers, inserts, projects, revokes}
use leads_engine.HandoffSender.Service.Run.{Call, rows_after, posted_by, run, posts_of}

-- The contents are the same, or one more that collides with none.
abbrev pub Grown : List Snapshot → List Snapshot → Type 0
Grown rows rows' =
    (cores rows' ≡ cores rows)
    ⊎ ((new : Snapshot) × (any_collides new rows ≡ false) × (cores rows' ≡ core new ∷ cores rows))

pub Move-Grown :
    {cfg : Config} {facts : Facts} {c : Call} (rows rows' : List Snapshot)
    (posted : Option Snapshot)
    → Move cfg facts c rows rows' posted
    → Grown rows rows'
unfolding cores booked_rows
Move-Grown rows rows' posted (stays why e q) = inl (ap cores e)
Move-Grown rows rows' posted (delivers h r at told found live e q) =
    inl (ap cores e ∙ cores-update_delivery (booked h r) at rows)
Move-Grown rows rows' posted (inserts new r at told free live e q) =
    inr (new, free, ap cores e ∙ cores-update_delivery (booked new r) at (new ∷ rows))
Move-Grown rows rows' posted (projects h p at told found live e q) =
    inl (ap cores e ∙ cores-update_delivery (projected_onto p h) at rows)
Move-Grown rows rows' posted (revokes h tenant at told found e q) =
    inl (ap cores e ∙ cores-mark_revoked h.id tenant at rows)

pub sent_same :
    (cfg : Config) (posted : Option Snapshot) (h p : Snapshot)
    → Posts cfg h posted
    → posted ≡ some p
    → h ≡ p
sent_same cfg posted h p (inr (_, e)) f = absurd (ground arith)
sent_same cfg posted h p (inl (_, e)) f = some-injective (sym e ∙ f)

Move-Among :
    {cfg : Config} {facts : Facts} {c : Call} (rows rows' : List Snapshot)
    (posted : Option Snapshot) (p : Snapshot)
    → Move cfg facts c rows rows' posted
    → posted ≡ some p
    → Among (core p) (cores rows')
unfolding cores booked_rows
Move-Among rows rows' posted p (stays why e q) f = absurd (ground arith)
Move-Among rows rows' posted p (delivers h r at told found live e q) f =
    let kept = ap cores e ∙ cores-update_delivery (booked h r) at rows in
    subst (Among (core p)) (sym kept) (
      subst (λ (x : Snapshot). Among (core x) (cores rows)) (sent_same _ posted h p q f)
        (RowIn-Among h rows found))
Move-Among rows rows' posted p (inserts new r at told free live e q) f =
    let kept = ap cores e ∙ cores-update_delivery (booked new r) at (new ∷ rows) in
    subst (Among (core p)) (sym kept) (inl (ap core (sent_same _ posted new p q f)))
Move-Among rows rows' posted p (projects h x at told found live e q) f = absurd (ground arith)
Move-Among rows rows' posted p (revokes h tenant at told found e q) f = absurd (ground arith)

-- Two contents that the table may hold together.
abbrev pub Differ : Core → Core → Type 0
Differ c d =
    ((d.id == c.id) ≡ false)
    × ((d.handoff_id == c.handoff_id) ≡ false)
    × (((d.opportunity_id == c.opportunity_id) ≡ false)
        ⊎ (((d.fingerprint == c.fingerprint) ≡ false)
            × (nat_eq d.source_version c.source_version ≡ false)))

abbrev pub Distinct : List Core → Type 0
Distinct [] = Unit
Distinct (c ∷ cs) = All (Differ c) cs × Distinct cs

collides-Differ : (new h : Snapshot) → collides new h ≡ false → Differ (core new) (core h)
unfolding collides
collides-Differ new h e = elim (Bool-cases (h.opportunity_id == new.opportunity_id)) [
  | inl same ↦ (ground arith, ground arith, inr (ground arith, ground arith))
  | inr other ↦ (ground arith, ground arith, inl other)
]

any_collides-All :
    (new : Snapshot) (rows : List Snapshot)
    → any_collides new rows ≡ false
    → All (Differ (core new)) (cores rows)
unfolding any_collides cores
any_collides-All new [] e = tt
any_collides-All new (h ∷ rows) e =
    (collides-Differ new h (ground arith), any_collides-All new rows (ground arith))

pub Grown-Distinct :
    (rows rows' : List Snapshot) → Grown rows rows' → Distinct (cores rows) → Distinct (cores rows')
Grown-Distinct rows rows' (inl same) d = subst Distinct (sym same) d
Grown-Distinct rows rows' (inr (new, free, same)) d =
    subst Distinct (sym same) (any_collides-All new rows free, d)

Grown-Among :
    (rows rows' : List Snapshot) (c : Core)
    → Grown rows rows'
    → Among c (cores rows)
    → Among c (cores rows')
Grown-Among rows rows' c (inl same) m = subst (Among c) (sym same) m
Grown-Among rows rows' c (inr (new, free, same)) m = subst (Among c) (sym same) (inr m)

All-Among : (P : Core → Type 0) (c : Core) (cs : List Core) → All P cs → Among c cs → P c
All-Among P c [] all m = elim m [ ]
All-Among P c (d ∷ ds) (here, all) (inl e) = subst P e here
All-Among P c (d ∷ ds) (here, all) (inr m) = All-Among P c ds all m

-- A key that no two contents of a table share tells them apart.
module _ (key : Core → String) (apart : (c d : Core) → key c ≡ key d → Differ c d → ⊥) where
  same_by :
      (cs : List Core) (c d : Core) → Distinct cs → Among c cs → Among d cs → key c ≡ key d → c ≡ d
  same_by [] c d all m n e = elim m [ ]
  same_by (x ∷ xs) c d (here, all) (inl p) (inl q) e = sym p ∙ q
  same_by (x ∷ xs) c d (here, all) (inl p) (inr n) e =
      absurd (apart x d (ap key p ∙ e) (All-Among (Differ x) d xs here n))
  same_by (x ∷ xs) c d (here, all) (inr m) (inl q) e =
      absurd (apart x c (ap key q ∙ sym e) (All-Among (Differ x) c xs here m))
  same_by (x ∷ xs) c d (here, all) (inr m) (inr n) e = same_by xs c d all m n e

handoff_id_apart : (c d : Core) → c.handoff_id ≡ d.handoff_id → Differ c d → ⊥
handoff_id_apart c d e (_, other, _) = let same = eq_iff d.handoff_id c.handoff_id in ground arith

id_apart : (c d : Core) → c.id ≡ d.id → Differ c d → ⊥
id_apart c d e (other, _, _) = let same = eq_iff d.id c.id in ground arith

pub same_core :
    (cs : List Core) (c d : Core)
    → Distinct cs
    → Among c cs
    → Among d cs
    → c.handoff_id ≡ d.handoff_id
    → c ≡ d
same_core = same_by (λ c. c.handoff_id) handoff_id_apart

pub same_id :
    (cs : List Core) (c d : Core) → Distinct cs → Among c cs → Among d cs → c.id ≡ d.id → c ≡ d
same_id = same_by (λ c. c.id) id_apart

-- The snapshot is one of the posted ones.
abbrev pub PostedIn : Snapshot → List (Option Snapshot) → Type 0
PostedIn p [] = ⊥
PostedIn p (q ∷ qs) = (q ≡ some p) ⊎ PostedIn p qs

module _ (cfg : Config) (facts : Facts) where
  pub run-Distinct :
      (rows : List Snapshot) (calls : List Call)
      → Distinct (cores rows)
      → Distinct (cores (run cfg facts rows calls))
  unfolding run
  run-Distinct rows [] d = d
  run-Distinct rows (c ∷ calls) d = run-Distinct (rows_after cfg facts rows c) calls (
      Grown-Distinct rows (rows_after cfg facts rows c)
        (Move-Grown rows (rows_after cfg facts rows c) (posted_by cfg facts rows c)
          (rows_after-Move cfg facts rows c))
        d)

  pub run-Among :
      (rows : List Snapshot) (calls : List Call) (c : Core)
      → Among c (cores rows)
      → Among c (cores (run cfg facts rows calls))
  unfolding run
  run-Among rows [] c m = m
  run-Among rows (x ∷ calls) c m = run-Among (rows_after cfg facts rows x) calls c (
      Grown-Among rows (rows_after cfg facts rows x) c
        (Move-Grown rows (rows_after cfg facts rows x) (posted_by cfg facts rows x)
          (rows_after-Move cfg facts rows x))
        m)

  posts_of-Among :
      (rows : List Snapshot) (calls : List Call) (p : Snapshot)
      → PostedIn p (posts_of cfg facts rows calls)
      → Among (core p) (cores (run cfg facts rows calls))
  unfolding run posts_of
  posts_of-Among rows [] p m = elim m [ ]
  posts_of-Among rows (c ∷ calls) p (inl e) =
      let stored =
        Move-Among rows (rows_after cfg facts rows c) (posted_by cfg facts rows c) p
          (rows_after-Move cfg facts rows c) e in
      run-Among (rows_after cfg facts rows c) calls (core p) stored
  posts_of-Among rows (c ∷ calls) p (inr m) = posts_of-Among (rows_after cfg facts rows c) calls p m

-- In any run of calls on an empty table, whatever the receiver answers, two posts with the same
-- hand-off id carry the same document, fingerprint, version and opportunity, and what they carry is
-- still the content of a row at the end.
pub same_bytes :
    (cfg : Config) (facts : Facts) (calls : List Call) (p q : Snapshot)
    → PostedIn p (posts_of cfg facts [] calls)
    → PostedIn q (posts_of cfg facts [] calls)
    → p.handoff_id ≡ q.handoff_id
    → (core p ≡ core q) × Among (core p) (cores (run cfg facts [] calls))
unfolding cores
same_bytes cfg facts calls p q m n e =
    let stored_p = posts_of-Among cfg facts [] calls p m in
    let stored_q = posts_of-Among cfg facts [] calls q n in
    (
      same_core (cores (run cfg facts [] calls)) (core p) (core q)
          (run-Distinct cfg facts [] calls tt) stored_p stored_q e,
      stored_p,
    )

-- No call changes the content of a snapshot or removes it, and a table without collisions stays so.
pub run-frozen :
    (cfg : Config) (facts : Facts) (before after : List Call) (c : Core)
    → Among c (cores (run cfg facts [] before))
    → Among c (cores (run cfg facts (run cfg facts [] before) after))
      × Distinct (cores (run cfg facts (run cfg facts [] before) after))
unfolding cores
run-frozen cfg facts before after c m = (
  run-Among cfg facts (run cfg facts [] before) after c m,
  run-Distinct cfg facts (run cfg facts [] before) after (run-Distinct cfg facts [] before tt),
)
