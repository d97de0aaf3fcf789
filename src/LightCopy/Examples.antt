-- ===== src/LightCopy/Examples.antt =====
-- A text of the model that is confirmed and edited, and a packet with a price.
use leads_engine.Base.{
  ◌≡◌, true, String, [], ◌∷◌, none, some, refl, pos, elem, trim_space, lookup, insert, add64,
  wrap64,
}
use leads_engine.LightCopy.{
  ModelOutput, Subject, cents, is_placeholder, generate, edited_version, save_manual, confirm,
  all_allowed, copy_fact, copy_facts, project,
}
use leads_engine.LightCopy.Edits.{
  edit_manual, edit_model, edit_confirm, new_draft, after_edit, edit_all, IsHonest,
  edit_all-IsHonest,
}
use leads_engine.LightCopy.Packets.{Backed, project-Backed}

abbrev written : ModelOutput
written = record { from_live_model = true; text = " hello "; cost_cents = pos 12 }

abbrev campaign : Subject
campaign = record {
  kind = "campaign";
  id = "cmp_1";
  tenant_id = "tnt_1";
  title = "Spring";
  activity_ref = "act_1";
  price_cents = some (pos 9900);
  price_valid_until = pos 100;
  contact_text = "";
  sales_note = "";
  profile = "";
}

opened : Unit {0}
unfolding trim_space lookup insert add64 wrap64 elem is_placeholder generate edited_version
    save_manual confirm all_allowed copy_fact copy_facts project after_edit edit_all
opened = tt

charged : (edit_all new_draft (edit_model written ∷ edit_confirm ∷ [])).live_charge ≡ pos 12
unfolding opened
charged = refl

edit_all-IsHonest_example :
    IsHonest (edit_all new_draft (edit_model written ∷ edit_confirm ∷ edit_manual "bye" ∷ []))
edit_all-IsHonest_example =
    edit_all-IsHonest (edit_model written ∷ edit_confirm ∷ edit_manual "bye" ∷ [])

complete : (project "tnt_1" campaign ("title" ∷ "price_cents" ∷ []) (pos 50)).1 ≡ none
unfolding opened
complete = refl

priced :
    lookup "price_cents" (project "tnt_1" campaign ("title" ∷ "price_cents" ∷ []) (pos 50)).0.facts
    ≡ some (cents (pos 9900))
unfolding opened
priced = refl

project-Backed_example :
    (◌≡◌ {A = String} "tnt_1" "tnt_1")
    × (elem "price_cents" ("title" ∷ "price_cents" ∷ []) ≡ true)
    × Backed campaign (pos 50) "price_cents" (cents (pos 9900))
project-Backed_example =
    project-Backed "tnt_1" campaign ("title" ∷ "price_cents" ∷ []) (pos 50) "price_cents"
      (cents (pos 9900)) complete priced
