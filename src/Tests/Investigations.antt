-- ===== src/Tests/Investigations.antt =====
-- Cases and their members at concrete inputs.
use eyenet.Common.{◌≡◌, refl, true, none, some, [], ◌∷◌}
use eyenet.Tier.{normal, restricted}
use eyenet.Storage.Table.{get}
use eyenet.Storage.Evidence.{Evidence}
use eyenet.Cases.{CaseRow, CaseStore, new_case, archived_row, close_case, observation_subject}
use eyenet.Cases.Edits.{update_case}
use eyenet.Cases.Following.{Follows}
use eyenet.Cases.Lifecycle.{closes, updates, case_step, halt, more, archived_final}
use eyenet.Cases.Members.{
  MemberCall, new_member, add_case_member, remove_case_member, removed_member,
}
use eyenet.Cases.Tiers.{Added, Removed, add_case_member_tier, remove_case_member_tier}

abbrev harbour : CaseRow
harbour = new_case "Harbour ring" none none 1 10

abbrev sighting : MemberCall
sighting = record {
  case_id = 4;
  subject_kind = observation_subject;
  subject_id = 6;
  added_by_user_id = 1;
  reason = "seen with the carrier";
  now = 20;
}

abbrev cases : CaseStore
cases = record {
  cases = (4, harbour) ∷ (5, archived_row 1 "all leads are settled" 9 harbour) ∷ [];
  members = (7, new_member sighting) ∷ [];
  collaborators = [];
  audit = [];
  syslog = [];
}

abbrev evidence : Evidence
evidence = record {
  documents = [];
  attachments = [];
  observations =
      (
        6,
        record {
          primitive_name = "handle";
          tiers = record { classifier_tier = normal; operator_tier_override = some restricted };
        },
      )
      ∷ [];
  log = record { audit = []; syslog = [] };
}

case_step_example :
    (d : CaseRow) × (get 4 (close_case true 4 1 "all leads are settled" 30 cases).1.cases ≡ some d)
    × Follows harbour d
unfolding get
case_step_example =
    case_step cases (close_case true 4 1 "all leads are settled" 30 cases).1
      (closes true 4 1 "all leads are settled" 30 cases) 4 harbour refl

archived_final_example :
    get 5 (update_case true 5 (some "Another") none 1 40 cases).1.cases
    ≡ some (archived_row 1 "all leads are settled" 9 harbour)
unfolding get
archived_final_example =
    archived_final cases (update_case true 5 (some "Another") none 1 40 cases).1 5
      (archived_row 1 "all leads are settled" 9 harbour)
      (more halt (updates true 5 (some "Another") none 1 40 cases)) refl refl

add_case_member_tier_example :
    Added evidence sighting 8 cases (add_case_member evidence true sighting 8 cases)
add_case_member_tier_example = add_case_member_tier evidence sighting 8 cases

remove_case_member_tier_example :
    Removed evidence 7
      (new_member sighting)
      (removed_member 1 "entered by mistake" 50 (new_member sighting))
      harbour
      cases
      (remove_case_member evidence true 7 1 "entered by mistake" 50 cases)
unfolding get
remove_case_member_tier_example =
    remove_case_member_tier evidence 7 1 "entered by mistake" 50 harbour (new_member sighting) cases
      refl refl
