-- ===== src/Sources.antt =====
-- hosted/ai/retrieval.py: `DeterministicSourceSelector`, which bounds what a provider is given. The
-- records are the ranked ones of the loader, which have a status, a subject and a content; the
-- confirmed facts are captures. Its three bounds are natural numbers.

mod Tests
use mathlib.Core.Path.{subst}
use warden_drydock.Prelude.{
  ℕ, zero, suc, ◌+◌, ◌-◌, ◌*◌, ◌≤◌, String, ◌≡◌, refl, ◌∙◌, sym, ap, Bool, true, false, not, ◌&&◌,
  ◌||◌, Option, none, some, List, [], ◌∷◌, ◌++◌, ◌==◌, leb, ltb, contains, map, length, All, inl,
  inr, Bool-cases, arith, nat_eq, string_eq, nat_beq, if◌then◌else◌,
}
use warden_drydock.Prelude.Text.{codes, str_leb}
use warden_drydock.Prelude.Sort.{sort}
use warden_drydock.Prelude.Result.{Result, ok, err}
use warden_drydock.Live.Models.{Capture}
use warden_drydock.Generations.Models.{GenerationError, value_error, SourceExcerpt, SourceEnvelope}

pub record Bounds : Type 0 where
  pub max_sources : ℕ
  pub max_excerpt_characters : ℕ
  pub max_total_characters : ℕ

-- What `getattr` finds of a ranked record.
pub record RankedRecord : Type 0 where
  pub relevance : ℕ
  pub status : String
  pub subject_id : String
  pub content : String

-- An entry of `ranked`, with the relevance before its sign is changed.
pub record Ranked : Type 0 where
  pub relevance : ℕ
  pub rank : ℕ
  pub source_id : String
  pub authority : String
  pub text : String

-- `authority_rank.get(authority, 3)`
authority_rank : String → ℕ
authority_rank authority =
    if authority == "table_fact"
    then 0
    else if authority == "canon"
    then 1
    else if authority == "revealed"
    then 2
    else 3

authority_of : String → String
authority_of status =
    if contains status ("draft" ∷ "idea" ∷ "unresolved" ∷ []) then "preparation" else status

-- The loop over the records, which leaves out those without a text.
rank_records : List RankedRecord → List Ranked
unfolding authority_rank authority_of
rank_records [] = []
rank_records (x ∷ xs) =
    let rest = rank_records xs in
    if x.content == ""
    then rest
    else record {
      relevance = x.relevance;
      rank = authority_rank (authority_of x.status);
      source_id = x.subject_id;
      authority = authority_of x.status;
      text = x.content;
    }
      ∷ rest

rank_fact : Capture → Ranked
rank_fact c = record {
  relevance = 1000000;
  rank = 0;
  source_id = c.event_id;
  authority = "table_fact";
  text = c.text;
}

-- The key of the sort; a greater relevance comes first.
ranked_leb : Ranked → Ranked → Bool
ranked_leb x y =
    if not (x.relevance == y.relevance)
    then leb y.relevance x.relevance
    else if not (x.rank == y.rank)
    then leb x.rank y.rank
    else if not (x.source_id == y.source_id)
    then str_leb x.source_id y.source_id
    else str_leb x.text y.text

-- `text[:n]`
unfoldable pub take_text : ℕ → String → String
take_text n String.[] = ""
take_text zero (String.◌∷◌ c s) = ""
take_text (suc n) (String.◌∷◌ c s) = String.◌∷◌ c (take_text n s)

unfoldable pub text_length : String → ℕ
text_length text = length (codes text)

unfoldable pub min : ℕ → ℕ → ℕ
min a b = if leb a b then a else b

-- The loop that cuts the excerpts, with how many there are and the characters that remain.
unfoldable pub cut : Bounds → ℕ → ℕ → List Ranked → List SourceExcerpt
unfolding take_text text_length min
cut b count remaining [] = []
cut b count remaining (x ∷ xs) =
    let bounded = take_text (min b.max_excerpt_characters remaining) x.text in
    let without = cut b count remaining xs in
    let others = cut b (count + 1) (remaining - text_length bounded) xs in
    if leb b.max_sources count || leb remaining 0
    then []
    else if bounded == ""
    then without
    else record {
      source_id = x.source_id;
      authority = x.authority;
      text = bounded;
      order = count + 1;
    }
      ∷ others

envelope_of :
    String → String → Option String → List SourceExcerpt → Result GenerationError SourceEnvelope
envelope_of campaign revision session [] = err value_error
envelope_of campaign revision session (x ∷ xs) = ok (record {
  campaign_id = campaign;
  revision_id = revision;
  excerpts = x ∷ xs;
  session_id = session;
  retrieval_policy_version = 1;
})

unfoldable pub select :
    Bounds
    → String
    → String
    → List RankedRecord
    → Option String
    → List Capture
    → Result GenerationError SourceEnvelope
unfolding rank_records rank_fact ranked_leb cut envelope_of
select b campaign revision records session facts =
    envelope_of campaign revision session (
      cut b 0 b.max_total_characters
        (sort ranked_leb (rank_records records ++ map rank_fact facts)))

-- The characters of all the texts.
pub total_length : List SourceExcerpt → ℕ
unfolding text_length
total_length [] = 0
total_length (x ∷ xs) = text_length x.text + total_length xs

-- The orders are consecutive from the one given.
abbrev pub AreOrdered : ℕ → List SourceExcerpt → Type 0
AreOrdered n [] = Unit
AreOrdered n (x ∷ xs) = (x.order ≡ n) × AreOrdered (n + 1) xs

-- Within the bounds: so many excerpts, so many characters in each and in all, numbered from the
-- order given, and none of them empty.
pub record IsWithin (b : Bounds) (count remaining : ℕ) (xs : List SourceExcerpt) : Type 0 where
  pub total : total_length xs ≤ remaining
  pub ordered : AreOrdered (count + 1) xs
  pub each : All (λ (x : SourceExcerpt). text_length x.text ≤ b.max_excerpt_characters) xs
  pub filled : All (λ (x : SourceExcerpt). (x.text == "") ≡ false) xs
  pub sources : count ≤ b.max_sources → length xs + count ≤ b.max_sources

length-take_text : (n : ℕ) (text : String) → text_length (take_text n text) ≤ n
unfolding text_length take_text
length-take_text n String.[] = omega arith
length-take_text zero (String.◌∷◌ c s) = omega arith
length-take_text (suc n) (String.◌∷◌ c s) = omega (arith, length-take_text n s)

min-below : (a b : ℕ) → (min a b ≤ a) × (min a b ≤ b)
unfolding min
min-below a b = ground arith

cut-IsWithin :
    (b : Bounds) (count remaining : ℕ) (xs : List Ranked)
    → IsWithin b count remaining (cut b count remaining xs)
unfolding cut total_length
cut-IsWithin b count remaining [] = record {
  total = omega arith;
  ordered = tt;
  each = tt;
  filled = tt;
  sources = λ h. omega (arith, h);
}
cut-IsWithin b count remaining (x ∷ xs) =
    let bounded = take_text (min b.max_excerpt_characters remaining) x.text in
    elim (Bool-cases (leb b.max_sources count || leb remaining 0)) [
      | inl full ↦ rw full (record {
        total = omega arith;
        ordered = tt;
        each = tt;
        filled = tt;
        sources = λ h. omega (arith, h);
      })
      | inr space ↦
          elim (Bool-cases (take_text (min b.max_excerpt_characters remaining) x.text == "")) [
            | inl empty ↦ rw (space, empty) (cut-IsWithin b count remaining xs)
            | inr text ↦
                let below = length-take_text (min b.max_excerpt_characters remaining) x.text in
                let (small, fits) = min-below b.max_excerpt_characters remaining in
                let others =
                  cut-IsWithin b (count + 1)
                    (remaining
                      - text_length (take_text (min b.max_excerpt_characters remaining) x.text))
                    xs in
                rw (space, text)
                  (record {
                    total = omega (arith, below, fits, others.total);
                    ordered = (refl, others.ordered);
                    each = (omega (arith, below, small), others.each);
                    filled = (text, others.filled);
                    sources = λ h.
                        let more : count + 1 ≤ b.max_sources = ground (arith, space) in
                        omega (arith, others.sources more);
                  })
          ]
    ]

envelope-excerpts :
    (campaign revision : String) (session : Option String) (xs : List SourceExcerpt)
    (e : SourceEnvelope)
    → envelope_of campaign revision session xs ≡ ok e
    → xs ≡ e.excerpts
unfolding envelope_of
envelope-excerpts campaign revision session [] e h = absurd (differs h)
  where
    differs : ◌≡◌ {A = Result GenerationError SourceEnvelope} (err value_error) (ok e) → ⊥
    differs q = cc
envelope-excerpts campaign revision session (x ∷ xs) e h =
    ap (λ (s : SourceEnvelope). s.excerpts) (same h)
  where
    same :
        {s : SourceEnvelope} → ◌≡◌ {A = Result GenerationError SourceEnvelope} (ok s) (ok e) → s ≡ e
    same q = cc

-- What is selected, from any records and facts, keeps to the bounds: at most so many excerpts, at
-- most so many characters in each and in all together; no excerpt is empty, and their orders are
-- 1, 2, and so on.
pub select-bounded :
    (b : Bounds) (campaign revision : String) (records : List RankedRecord)
    (session : Option String) (facts : List Capture) (e : SourceEnvelope)
    → select b campaign revision records session facts ≡ ok e
    → (length e.excerpts ≤ b.max_sources)
      × (total_length e.excerpts ≤ b.max_total_characters)
      × AreOrdered 1 e.excerpts
      × All (λ (x : SourceExcerpt). text_length x.text ≤ b.max_excerpt_characters) e.excerpts
      × All (λ (x : SourceExcerpt). (x.text == "") ≡ false) e.excerpts
unfolding select
select-bounded b campaign revision records session facts e h =
    let w : IsWithin b 0 b.max_total_characters e.excerpts =
      subst (IsWithin b 0 b.max_total_characters)
        (envelope-excerpts campaign revision session _ e h)
        (cut-IsWithin b 0 b.max_total_characters _) in
    let few : length e.excerpts + 0 ≤ b.max_sources = w.sources (omega arith) in
    (omega (arith, few), w.total, w.ordered, w.each, w.filled)
