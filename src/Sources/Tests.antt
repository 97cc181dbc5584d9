-- ===== src/Sources/Tests.antt =====
-- A selection that cuts its second text, and the theorem at it.
use warden_drydock.Prelude.{
  ◌≡◌, ◌≤◌, refl, false, none, List, [], ◌∷◌, ◌==◌, All, length, string_eq,
}
use warden_drydock.Prelude.Sort.{sort}
use warden_drydock.Generations.Models.{SourceExcerpt, SourceEnvelope}
use warden_drydock.Sources.{
  Bounds, RankedRecord, AreOrdered, total_length, text_length, select, select-bounded,
}

abbrev bounds : Bounds
bounds = record { max_sources = 2; max_excerpt_characters = 4; max_total_characters = 6 }

abbrev records : List RankedRecord
records =
    record { relevance = 1; status = "canon"; subject_id = "b"; content = "second" }
    ∷ record { relevance = 9; status = "idea"; subject_id = "a"; content = "first" }
    ∷ []

abbrev selected : SourceEnvelope
selected = record {
  campaign_id = "campaign_one";
  revision_id = "revision_one";
  excerpts =
      record { source_id = "a"; authority = "preparation"; text = "firs"; order = 1 }
      ∷ record { source_id = "b"; authority = "canon"; text = "se"; order = 2 }
      ∷ [];
  session_id = none;
  retrieval_policy_version = 1;
}

select-bounded_example :
    (length selected.excerpts ≤ bounds.max_sources)
    × (total_length selected.excerpts ≤ bounds.max_total_characters)
    × AreOrdered 1 selected.excerpts
    × All
        (λ (x : SourceExcerpt). text_length x.text ≤ bounds.max_excerpt_characters)
        selected.excerpts
    × All (λ (x : SourceExcerpt). (x.text == "") ≡ false) selected.excerpts
unfolding select sort
select-bounded_example =
    select-bounded bounds "campaign_one" "revision_one" records none [] selected refl
