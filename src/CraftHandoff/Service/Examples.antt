-- ===== src/CraftHandoff/Service/Examples.antt =====
-- A lead whose copy is saved, edited, handed off and revoked.
use leads_engine.Base.{
  ◌≡◌, ◌≢◌, true, false, none, String, List, [], ◌∷◌, pos, ok, err, lookup, refl, some, eq_iff,
  arith, blank, is_nil, All, trim_space, elem, all_chars, insert, itoa, ◌==◌, if◌then◌else◌,
}
use leads_engine.CraftHandoff.{
  Fact, SaveRequest, Input, State, new_service, cross_tenant, permission_revoked,
}
use leads_engine.CraftHandoff.Material.{
  canonical_id, selected_copy, join_lines, looks_like_contact, kept_facts, turn, after_turn,
  long_run, contact_material,
}
use leads_engine.CraftHandoff.Service.{
  is_foreign, bind, put_draft, seal_draft, store_copy, own_draft, input_refusal, is_revoked, key_of,
  handoff_key, handoff_bound, handoff_id, seal, itoa_int, step, new_handoff, handoff, revoke,
  save_draft, edit_by_hand, draft, edited, projects, run, call_save, call_handoff, Call, new_draft,
}
use leads_engine.CraftHandoff.Service.Tenants.{lead_owner}
use leads_engine.CraftHandoff.Service.Replay.{handoff_replay, revoked_forever}
use leads_engine.CraftHandoff.Service.Records.{handoff_ownership}
use leads_engine.CraftHandoff.Service.Drafts.{draft-IsUnsent, ReadsUnsent, IsIdle}
use leads_engine.CraftHandoff.Service.Written.{draft-save_draft}
use leads_engine.CraftHandoff.Service.Safe.{selected_copy-IsKept, IsKept}

-- A digest for the examples.
abbrev plain_digest : String → String
plain_digest s = "0"

abbrev two_facts : List Fact
two_facts =
    record { key = "offer"; value = " ten percent off "; selected = true; authorized = true }
    ∷ record { key = "phone"; value = "13800000000"; selected = false; authorized = true }
    ∷ []

abbrev saved : SaveRequest
saved = record { tenant_id = "tnt_1"; lead_id = "lead_1"; version = pos 1; facts = two_facts }

abbrev saved_elsewhere : SaveRequest
saved_elsewhere = record saved { tenant_id = "tnt_2" }

abbrev kept : List Fact
kept = record { key = "offer"; value = "ten percent off"; selected = true; authorized = true } ∷ []

abbrev asked : Input
asked = record {
  tenant_id = "tnt_1";
  lead_id = "lead_1";
  version = pos 2;
  target = "avatar";
  payer_ref = "payer_1";
  phone = "";
  email = "";
  crm_profile = "";
  sales_notes = "";
  portrait = "";
  portrait_authorized = false;
  cost_minor = none;
  target_failed = false;
}

abbrev asked_again : Input
asked_again = record asked { payer_ref = "payer_2"; target_failed = true }

abbrev asked_elsewhere : Input
asked_elsewhere = record asked { tenant_id = "tnt_2" }

abbrev calls : List Call
calls = call_save saved ∷ call_handoff asked_elsewhere ∷ []

abbrev saved_state : State
saved_state = (save_draft new_service saved).0

-- What a test computes with.
opened : Unit {0}
unfolding selected_copy kept_facts turn after_turn join_lines looks_like_contact canonical_id
    long_run is_foreign bind put_draft new_draft seal_draft store_copy save_draft own_draft edited
    edit_by_hand revoke input_refusal is_revoked contact_material key_of handoff_key handoff_bound
    new_handoff handoff_id seal itoa_int handoff step run trim_space elem all_chars lookup insert
    itoa draft
opened = tt

copy_made : selected_copy two_facts ≡ ok (kept, "ten percent off")
unfolding opened
copy_made = refl

draft_saved : (save_draft new_service saved).1 ≡ ok (new_draft saved kept "ten percent off")
unfolding opened
draft_saved = refl

handed : (handoff plain_digest saved_state asked).1 ≡ ok (new_handoff plain_digest asked)
unfolding opened
handed = refl

clear_again : input_refusal asked_again ≡ none
unfolding opened
clear_again = refl

clear_elsewhere : input_refusal asked_elsewhere ≡ none
unfolding opened
clear_elsewhere = refl

not_revoked :
    is_revoked (run plain_digest (handoff plain_digest saved_state asked).0 calls) "lead_1" ≡ false
unfolding opened
not_revoked = refl

revoked_now : (revoke saved_state "tnt_1" "lead_1").1 ≡ ok tt
unfolding opened
revoked_now = refl

bound_now : lookup "lead_1" saved_state.leads ≡ some "tnt_1"
unfolding opened
bound_now = refl

named : canonical_id "lead_1" ≡ true
unfolding opened
named = refl

named_elsewhere : canonical_id "tnt_2" ≡ true
unfolding opened
named_elsewhere = refl

written : blank "mine" ≡ false
unfolding opened
written = refl

spaced : blank " by hand " ≡ false
unfolding opened
spaced = refl

tenants_differ : ◌≢◌ {A = String} "tnt_1" "tnt_2"
tenants_differ = ground (arith, eq_iff "tnt_1" "tnt_2")

read_back :
    draft (run plain_digest new_service (call_save saved ∷ calls)) "tnt_1" "lead_1"
    ≡ ok (new_draft saved kept "ten percent off")
unfolding opened
read_back = refl

handed_after :
    (handoff plain_digest (run plain_digest new_service (call_save saved ∷ calls)) asked).1
    ≡ ok (new_handoff plain_digest asked)
unfolding opened
handed_after = refl

lead_owner_example :
    let s = run plain_digest saved_state calls in
    (lookup "lead_1" s.leads ≡ some "tnt_1")
    × (draft s "tnt_2" "lead_1" ≡ err cross_tenant)
    × (edit_by_hand s "tnt_2" "lead_1" "mine" ≡ (s, err cross_tenant))
    × (revoke s "tnt_2" "lead_1" ≡ (s, err cross_tenant))
    × (handoff plain_digest s asked_elsewhere ≡ (s, err cross_tenant))
    × (save_draft s saved_elsewhere ≡ (s, err cross_tenant))
lead_owner_example =
    lead_owner plain_digest saved_state calls "lead_1" "tnt_1" "tnt_2" "mine" asked_elsewhere
      saved_elsewhere kept "ten percent off" bound_now tenants_differ named_elsewhere named written
      refl refl clear_elsewhere refl refl refl copy_made

handoff_replay_example :
    let s = run plain_digest (handoff plain_digest saved_state asked).0 calls in
    ((handoff plain_digest s asked_again).1 ≡ ok (new_handoff plain_digest asked))
    × (projects (handoff plain_digest s asked_again).0 ≡ projects s)
handoff_replay_example =
    handoff_replay plain_digest saved_state asked asked_again (new_handoff plain_digest asked) calls
      handed refl refl refl refl clear_again not_revoked

revoked_forever_example :
    let s1 = (revoke saved_state "tnt_1" "lead_1").0 in
    let s2 = run plain_digest s1 calls in
    ((handoff plain_digest s2 asked_again).1
      ≡ err (if asked_again.tenant_id == "tnt_1" then permission_revoked else cross_tenant))
    × ((handoff plain_digest s2 asked_again).0.handoffs ≡ s2.handoffs)
    × (s1.drafts ≡ saved_state.drafts)
    × (s1.handoffs ≡ saved_state.handoffs)
revoked_forever_example =
    revoked_forever plain_digest saved_state "tnt_1" "lead_1" calls asked_again revoked_now refl
      clear_again

handoff_ownership_example :
    let h = new_handoff plain_digest asked in
    (h.tenant_id ≡ "tnt_1")
    × (h.lead_id ≡ "lead_1")
    × (h.version ≡ pos 2)
    × (h.target ≡ "avatar")
    × (h.payload.source_lead_id ≡ "lead_1")
    × (h.payload.version ≡ pos 2)
    × (canonical_id h.payload.payer_ref ≡ true)
    × (looks_like_contact h.payload.payer_ref ≡ false)
handoff_ownership_example =
    handoff_ownership plain_digest (call_save saved ∷ calls) asked (new_handoff plain_digest asked)
      handed_after

draft-IsUnsent_example :
    let s = run plain_digest new_service (call_save saved ∷ calls) in
    IsIdle s × ReadsUnsent "tnt_1" "lead_1" (draft s "tnt_1" "lead_1")
draft-IsUnsent_example = draft-IsUnsent plain_digest (call_save saved ∷ calls) "tnt_1" "lead_1"

selected_copy-IsKept_example :
    All (IsKept two_facts) kept × (is_nil kept ≡ false) × ("ten percent off" ≡ join_lines kept)
selected_copy-IsKept_example = selected_copy-IsKept two_facts kept "ten percent off" copy_made

draft-save_draft_example :
    let d = new_draft saved kept "ten percent off" in
    let after = edit_by_hand saved_state "tnt_1" "lead_1" " by hand " in
    let new = edited d (trim_space " by hand ") in
    (draft saved_state "tnt_1" "lead_1" ≡ ok d)
    × (after.1 ≡ ok new)
    × (draft after.0 "tnt_1" "lead_1" ≡ ok new)
    × ((new.body ≡ trim_space " by hand ")
        × (new.facts ≡ d.facts)
        × (new.version ≡ d.version)
        × (new.tenant_id ≡ d.tenant_id))
draft-save_draft_example =
    draft-save_draft new_service saved (new_draft saved kept "ten percent off") " by hand "
      draft_saved spaced
