-- ===== src/Campaign/Tests/Runs.antt =====
-- Commands that write, run on the small campaign.
use warden_drydock.Prelude.{
  String, ◌≡◌, refl, Bool, true, false, List, [], ◌∷◌, Option, none, some, string_eq, ◌==◌,
  if◌then◌else◌,
}
use warden_drydock.Prelude.Dict.{lookup, insert}
use warden_drydock.Prelude.Result.{ok}
use warden_drydock.Campaign.Text.{is_entity_id}
use warden_drydock.Campaign.Json.{Json, text, object, member, no_members}
use warden_drydock.Campaign.Graph.{File}
use warden_drydock.Campaign.Rules.{Root}
use warden_drydock.Campaign.Context.{file_at}
use warden_drydock.Campaign.Create.{create_entity, sub_field}
use warden_drydock.Campaign.Commands.{run, new}
use warden_drydock.Campaign.Commands.Kept.{is_generated, run-Kept}
use warden_drydock.Campaign.Tests.{fold, ripley}

-- A configuration with one type of entity.
abbrev rules : Json
rules = object (
    member "entity_types"
      (object (
        member "npc"
          (object (member "template" (text "t") (member "destination" (text "d") no_members)))
          no_members))
      no_members)

abbrev loads : String → Option Json
loads s = if s == "rules" then some rules else none

abbrev resolve : String → Option (List String)
resolve s =
    if s == "t" then some ("templates" ∷ "npc.md" ∷ []) else some ("03-npcs" ∷ "ash.md" ∷ [])

abbrev occupied : List String → Bool
occupied p = false

abbrev format_id : String → String → Option String
format_id s id = some s

abbrev template : File
template = record {
  parts = "templates" ∷ "npc.md" ∷ [];
  content = "---\nid: id-here\nname: Name\nownership: framework\n---\n\n# Name\n";
}

abbrev root : Root
root = record { files = template ∷ ripley ∷ []; adapter = some "rules" }

abbrev ash_text : String
ash_text = "---\nid: ash\nname: Ash\nownership: campaign\n---\n\n# Ash\n"

abbrev created : Root
created = record root {
  files = template ∷ ripley ∷ record { parts = "03-npcs" ∷ "ash.md" ∷ []; content = ash_text } ∷ [];
}

ash_created :
    create_entity loads resolve occupied format_id fold root "npc" "ash" (some "Ash")
    ≡ ok ("03-npcs" ∷ "ash.md" ∷ [], created)
unfolding create_entity is_entity_id lookup insert
ash_created = refl

-- Where a template leaves the value of a field empty, the line after it is lost.
next_line_lost :
    sub_field "id:" "id: ash" true "id:\ntype: npc\nname: Name\n" ≡ "id: ash\nname: Name\n"
unfolding sub_field
next_line_lost = refl

run-Kept_example : file_at ("03-npcs" ∷ "ripley.md" ∷ []) created.files ≡ some ripley
unfolding is_generated file_at run create_entity lookup insert
run-Kept_example =
    run-Kept ("03-npcs" ∷ "ripley.md" ∷ []) refl ripley fold fold (λ j. "") loads resolve occupied
      format_id fold (new "npc" "ash" (some "Ash")) root created [] refl refl
