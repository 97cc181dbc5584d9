-- ===== src/Campaign/Validate/Tests.antt =====
-- The validation run on the small campaign.
use warden_drydock.Prelude.{
  String, ◌≡◌, refl, Bool, false, [], ◌∷◌, Option, none, some, string_eq, ◌==◌, if◌then◌else◌,
}
use warden_drydock.Prelude.Dict.{lookup, insert, values}
use warden_drydock.Prelude.Sort.{sort}
use warden_drydock.Prelude.Text.{codes_leb}
use warden_drydock.Prelude.Result.{ok}
use warden_drydock.Campaign.Json.{Json, text, object, number, integer, member, no_members}
use warden_drydock.Campaign.Graph.{graph}
use warden_drydock.Campaign.Rules.{graph_or_exit}
use warden_drydock.Campaign.Validate.Report.{Report, status, Campaign, validate_campaign}
use warden_drydock.Campaign.Validate.Report.Passed.{validate_campaign-accepts}
use warden_drydock.Campaign.Tests.{fold, ripley, crew, ship}

abbrev equal : Option Json → Option Json → Bool
equal (some (text s)) (some (text t)) = s == t
equal _ _ = false

abbrev manifest : Json
manifest = object (
    member "framework" (text "drydock") (
      member "framework_version" (text "1") (
        member "adapter" (text "mothership") (
          member "adapter_version" (text "1") (
            member "ownership_model" (number (integer "1"))
              (member "campaign_name" (text "Erebos") no_members))))))

abbrev lock : Json
lock = object (
    member "schema_version" (number (integer "1"))
      (member "files" (object no_members) (member "adapter_version" (text "1") no_members)))

abbrev adapter : Json
adapter =
    object (member "adapter" (text "mothership") (member "adapter_version" (text "1") no_members))

abbrev loads : String → Option Json
loads s =
    if s == "manifest"
    then some manifest
    else if s == "lock"
    then some lock
    else if s == "adapter"
    then some adapter
    else none

abbrev campaign : Campaign
campaign = record {
  root = record { files = ship ∷ ripley ∷ crew ∷ []; adapter = some "adapter" };
  manifest = some "manifest";
  lock = some "lock";
}

abbrev passed : Report
passed = record {
  checked = 3;
  warnings =
      "03-npcs/ripley.md:8: unknown relationship member-of"
      ∷ "04-factions/crew.md:8: unknown relationship aboard" ∷ [];
  errors = [];
}

campaign_passes : validate_campaign equal (λ j. "") fold fold fold loads campaign ≡ ok passed
unfolding validate_campaign lookup insert values sort codes_leb
campaign_passes = refl

-- Without a manifest the status is 1.
missing_fails :
    (r : Report) × (validate_campaign equal
        (λ j. "")
        fold
        fold
        fold
        loads
        (record campaign { manifest = none })
      ≡ ok r)
    × (status r ≡ 1)
unfolding validate_campaign status lookup
missing_fails = (_, refl, refl)

validate_campaign-accepts_example :
    graph_or_exit fold loads campaign.root ≡ ok (graph fold loads campaign.root.files)
unfolding status
validate_campaign-accepts_example =
    validate_campaign-accepts equal (λ j. "") fold fold fold loads campaign passed campaign_passes
      refl
