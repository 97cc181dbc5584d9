-- ===== src/Proposals/Queries.antt =====
-- hosted/proposals/service.py: the methods of `InMemoryProposalRepository` that list and count.
use warden_drydock.Prelude.{
  ℕ, String, Bool, Option, none, some, List, [], ◌∷◌, ◌&&◌, ◌==◌, leb, length, nat_eq, string_eq,
  option_eq, pair_eq, filter,
}
use warden_drydock.Prelude.Dict.{Dict, lookup, values}
use warden_drydock.Prelude.Sort.{sort}
use warden_drydock.Prelude.Result.{Result, ok, err, ◌>>=◌}
use warden_drydock.Proposals.Models.{
  ProposalError, value_error, key_error, ProposalStatus, draft, rejected, conflict, published,
  quarantined, status_beq, ProposalVersion,
}
use warden_drydock.Proposals.Repository.{Key, Repository, key_of}

version_leb : ProposalVersion → ProposalVersion → Bool
version_leb v w = leb v.version w.version

versions : String → Repository → List ProposalVersion
unfolding version_leb
versions id r =
    sort version_leb (filter (λ (v : ProposalVersion). v.proposal_id == id) (values r.items))

-- The number of versions of the campaign that have the base revision and the status.
workflow_count : String → String → ProposalStatus → Repository → ℕ
workflow_count campaign revision status r = length (
    filter
      (λ (v : ProposalVersion).
        v.campaign_id == campaign && v.base_revision == revision && status_beq v.status status)
      (values r.items))

-- The five statuses in the order of the dictionary that the source fills.
workflow_counts : String → String → Repository → List (ProposalStatus × ℕ)
unfolding workflow_count
workflow_counts campaign revision r =
    (draft, workflow_count campaign revision draft r)
    ∷ (rejected, workflow_count campaign revision rejected r)
    ∷ (conflict, workflow_count campaign revision conflict r)
    ∷ (published, workflow_count campaign revision published r)
    ∷ (quarantined, workflow_count campaign revision quarantined r)
    ∷ []

only : List ProposalVersion → Result ProposalError (Option ProposalVersion)
only [] = ok none
only (v ∷ []) = ok (some v)
only _ = err value_error

find_by_published_revision :
    String → String → Repository → Result ProposalError (Option ProposalVersion)
unfolding only
find_by_published_revision campaign revision r = only (
    filter
      (λ (v : ProposalVersion).
        v.campaign_id == campaign && v.published_revision_id == some revision)
      (values r.items))

-- A version with the time at which it was added.
row : ProposalVersion → Dict Key ℕ → Result ProposalError (ProposalVersion × ℕ)
row v times = elim (lookup (key_of v) times) [ none ↦ err key_error | some t ↦ ok (v, t) ]

rows : List ProposalVersion → Dict Key ℕ → Result ProposalError (List (ProposalVersion × ℕ))
unfolding row
rows [] times = ok []
rows (v ∷ vs) times = let rest = rows vs times in do x ← row v times; xs ← rest; ok (x ∷ xs)

proposal_rows : String → String → Repository → Result ProposalError (List (ProposalVersion × ℕ))
unfolding rows
proposal_rows campaign revision r =
    rows
      (filter (λ (v : ProposalVersion). v.campaign_id == campaign && v.base_revision == revision)
        (values r.items))
      r.created_at
