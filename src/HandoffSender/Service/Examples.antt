-- ===== src/HandoffSender/Service/Examples.antt =====
-- An opportunity that is confirmed, delivered on the second attempt, and one that is revoked.
use leads_engine.Base.{
  ◌≡◌, ◌⊎◌, inl, inr, true, false, String, ◌==◌, [], ◌∷◌, none, some, refl, All, elem, all_chars,
  pos, trim_space,
}
use leads_engine.HandoffSender.{
  Snapshot, Config, Reply, no_answer, answered, DeliveryResult, TargetProjection, delivery_failed,
}
use leads_engine.HandoffSender.Input.{
  ConfirmedInput, is_slug, is_digest, is_date, date_from, asset_refusal, assets_refusal, budget_ok,
  validate_provided, validate,
}
use leads_engine.HandoffSender.Receiver.{
  has_channel, read_result, receive, is_conflict, is_rejected, is_transport, status_of,
  failure_text, booked, look_up,
}
use leads_engine.HandoffSender.Table.{
  find_row, by_handoff_id, by_fingerprint, is_of, latest, next_version, collides, any_collides,
  insert_row, change_row, set_delivery, update_delivery, set_revoked, mark_revoked,
}
use leads_engine.HandoffSender.Service.{
  Error, Registry, complete, tenant_scope_matches, target_refusal, setup_refusal, confirm_refusal,
  booked_rows, sent_if, after_delivery, deliver_step,
}
use leads_engine.HandoffSender.Service.Confirm.{
  confirm_existing, new_snapshot, confirm_parallel, confirm_new, Facts, Asked, confirm_document,
  snapshot_of, confirm_accepted, confirm,
}
use leads_engine.HandoffSender.Service.Latest.{
  retry_latest, retry, projected_onto, refresh_by, refresh, revoke_row, lookup_refusal,
  guard_refusal, revoke_latest, revoke,
}
use leads_engine.HandoffSender.Service.Run.{
  Call, call_confirm, call_retry, call_revoke, rows_after, posted_by, run, posts_of,
}
use leads_engine.HandoffSender.Service.Cores.{core, cores, Among}
use leads_engine.HandoffSender.Service.Moves.Calls.{rows_after-Move}
use leads_engine.HandoffSender.Service.Moves.{Move}
use leads_engine.HandoffSender.Service.Statuses.{is_live}
use leads_engine.HandoffSender.Service.SameBytes.{PostedIn, same_bytes}
use leads_engine.HandoffSender.Service.Revoked.{Gone, has_id, revoked_handoff_final}
use leads_engine.HandoffSender.Service.Newest.{NotAfter, retry-newest}
use leads_engine.HandoffSender.Service.Asks.{may_revoke, revoke-Guarded}
use leads_engine.HandoffSender.Service.Accepted.{Landed, SaysResent, retry-Landed}
use leads_engine.HandoffSender.Service.Twice.{got_through, confirm-confirm}

abbrev cfg : Config
cfg = record {
  target_app_id = "studio";
  tenant_scope = "tnt_1";
  intake_url = "https://studio/intake";
  token = "secret";
}

abbrev registry : Registry
registry = record {
  self = some ("leads", true);
  has_capability = λ app capability. true;
  has_app = λ app. true;
  has_return_target = λ target. true;
}

-- The fingerprint is the summary; the document is the key.
abbrev facts : Facts
facts = record {
  registry = registry;
  fingerprint = λ i. i.summary;
  sha256 = λ doc. doc;
  document = λ i fingerprint handoff version principal issuer at. some handoff;
}

abbrev input : ConfirmedInput
input = record {
  tenant_id = "tnt_1";
  opportunity_id = "opp_1";
  opportunity_title = "Poster";
  business_category = "creative_service";
  summary = "A poster";
  service_category = "poster-design";
  budget_cents = some (pos 50000);
  deadline = "2026-01-31";
  assets = [];
}

abbrev asked : Asked
asked = record {
  principal_id = "usr_1";
  actor_issuer = "leads";
  confirmed_by = "usr_1";
  hex = "0a";
  at = "10:00";
}

abbrev later : Asked
later = record asked { hex = "0b"; at = "10:05" }

abbrev accepted : DeliveryResult
accepted = record {
  handoff_id = "handoff-0a";
  draft_ref = "draft_7";
  status = "draft";
  duplicate = false;
  dirty = false;
  is_revoked = false;
}

abbrev timeout : Reply DeliveryResult
timeout = no_answer "timeout"

abbrev created : Reply DeliveryResult
created = answered 201 (some accepted) ""

abbrev unknown : Reply TargetProjection
unknown = answered 404 none ""

abbrev first : Call
first = call_confirm input asked timeout

abbrev again : Call
again = call_retry "opp_1" "tnt_1" "" "10:10" created

abbrev withdrawn : Call
withdrawn = call_revoke "opp_1" "tnt_1" "10:20" unknown

abbrev pending : Snapshot
pending =
    new_snapshot cfg input "usr_1" "leads" "usr_1" 1 "A poster" "0a" "handoff-0a" "handoff-0a"
      "10:00"

abbrev failed : Snapshot
failed = record pending {
  local_status = delivery_failed;
  last_error = "handoffsender: delivery transport failure: timeout";
}

opened : Unit {0}
unfolding is_slug is_digest is_date date_from asset_refusal assets_refusal budget_ok
    validate_provided validate has_channel read_result receive is_conflict is_rejected is_transport
    status_of booked look_up find_row by_handoff_id by_fingerprint latest next_version collides
    any_collides insert_row change_row set_delivery update_delivery set_revoked mark_revoked
    complete tenant_scope_matches target_refusal setup_refusal confirm_refusal booked_rows sent_if
    after_delivery deliver_step confirm_existing new_snapshot confirm_parallel confirm_new
    confirm_document snapshot_of confirm_accepted confirm retry_latest retry projected_onto
    refresh_by refresh revoke_row lookup_refusal guard_refusal revoke_latest revoke rows_after
    posted_by run posts_of failure_text cores trim_space elem all_chars
opened = tt

confirmed_once : run cfg facts [] (first ∷ []) ≡ failed ∷ []
unfolding opened
confirmed_once = refl

posted_twice : posts_of cfg facts [] (first ∷ again ∷ []) ≡ some pending ∷ some failed ∷ []
unfolding opened
posted_twice = refl

rows_after-Move_example :
    Move cfg facts again
      (failed ∷ [])
      (rows_after cfg facts (failed ∷ []) again)
      (posted_by cfg facts (failed ∷ []) again)
rows_after-Move_example = rows_after-Move cfg facts (failed ∷ []) again

posted_first : PostedIn pending (posts_of cfg facts [] (first ∷ again ∷ []))
unfolding opened
posted_first = inl refl

posted_again : PostedIn failed (posts_of cfg facts [] (first ∷ again ∷ []))
unfolding opened
posted_again = inr (inl refl)

same_key : pending.handoff_id ≡ failed.handoff_id
unfolding opened
same_key = refl

same_bytes_example :
    (core pending ≡ core failed)
    × Among (core pending) (cores (run cfg facts [] (first ∷ again ∷ [])))
same_bytes_example =
    same_bytes cfg facts (first ∷ again ∷ []) pending failed posted_first posted_again same_key

stored_withdrawn : has_id "handoff-0a" (cores (run cfg facts [] (first ∷ withdrawn ∷ []))) ≡ true
unfolding opened
stored_withdrawn = refl

Gone-withdrawn : All (Gone "handoff-0a") (run cfg facts [] (first ∷ withdrawn ∷ []))
unfolding opened
Gone-withdrawn = (inr refl, tt)

revoked_handoff_final_example :
    All
      (Gone "handoff-0a")
      (run cfg facts (run cfg facts [] (first ∷ withdrawn ∷ [])) (again ∷ first ∷ []))
    × ((p : Snapshot)
        → PostedIn p
            (posts_of cfg facts (run cfg facts [] (first ∷ withdrawn ∷ [])) (again ∷ first ∷ []))
        → (p.handoff_id == "handoff-0a") ≡ false)
revoked_handoff_final_example =
    revoked_handoff_final cfg facts (first ∷ withdrawn ∷ []) (again ∷ first ∷ []) "handoff-0a"
      stored_withdrawn Gone-withdrawn

retried : (retry cfg "10:10" created (failed ∷ []) "opp_1" "tnt_1" "").posted ≡ some failed
unfolding opened
retried = refl

retry-newest_example :
    (is_of "opp_1" "tnt_1" failed ≡ true)
    × All (NotAfter "opp_1" "tnt_1" failed) (failed ∷ [])
    × (is_live failed.local_status ≡ true)
    × (◌≡◌ {A = String} "" "" ⊎ ("" ≡ failed.handoff_id))
retry-newest_example =
    retry-newest cfg "10:10" created (failed ∷ []) "opp_1" "tnt_1" "" failed retried

newest : latest "opp_1" "tnt_1" (pending ∷ []) ≡ some pending
unfolding opened
newest = refl

newest_live : is_live pending.local_status ≡ true
unfolding opened
newest_live = refl

revoke-Guarded_example :
    (may_revoke cfg unknown pending ≡ true
      → ((revoke cfg "10:20" unknown (pending ∷ []) "opp_1" "tnt_1").rows
          ≡ mark_revoked pending.id "tnt_1" "10:20" (pending ∷ []))
        × ((revoke cfg "10:20" unknown (pending ∷ []) "opp_1" "tnt_1").answer.1 ≡ none))
    × (may_revoke cfg unknown pending ≡ false
        → ((revoke cfg "10:20" unknown (pending ∷ []) "opp_1" "tnt_1").rows ≡ pending ∷ [])
          × ((e : Error) × ((revoke cfg "10:20" unknown (pending ∷ []) "opp_1" "tnt_1").answer.1
                ≡ some e)))
revoke-Guarded_example =
    revoke-Guarded cfg "10:20" unknown (pending ∷ []) "opp_1" "tnt_1" pending newest newest_live

channel : has_channel cfg ≡ true
unfolding opened
channel = refl

found_failed : latest "opp_1" "tnt_1" (run cfg facts [] (first ∷ [])) ≡ some failed
unfolding opened
found_failed = refl

failed_live : is_live failed.local_status ≡ true
unfolding opened
failed_live = refl

retry-Landed_example :
    All
      (Landed failed.handoff_id "draft_7")
      (retry cfg "10:10" created (run cfg facts [] (first ∷ [])) "opp_1" "tnt_1" "").rows
    × ((retry cfg "10:10" created (run cfg facts [] (first ∷ [])) "opp_1" "tnt_1" "").posted
        ≡ some failed)
    × SaysResent
        (retry cfg "10:10" created (run cfg facts [] (first ∷ [])) "opp_1" "tnt_1" "").answer
retry-Landed_example =
    retry-Landed cfg facts (first ∷ []) "opp_1" "tnt_1" "10:10" failed 201 accepted "" channel
      (inr refl) found_failed failed_live

kept_for_later : got_through (confirm cfg facts timeout [] input asked).answer ≡ true
unfolding opened
kept_for_later = refl

confirm-confirm_example :
    cores
      (confirm cfg facts created (confirm cfg facts timeout [] input asked).rows input later).rows
    ≡ cores (confirm cfg facts timeout [] input asked).rows
confirm-confirm_example =
    confirm-confirm cfg facts timeout created [] input asked later kept_for_later
