-- ===== src/Proposals/Service/Writes.antt =====
-- The writes of the repository's methods, and of the end of an approval.
use warden_drydock.Prelude.{
  String, ◌≡◌, refl, ◌∙◌, sym, ap, true, ◌||◌, Option, none, some, List, inl, inr, Bool-cases,
  arith, nat_eq, string_eq, option_eq, pair_eq, ◌==◌, pair_beq_iff,
}
use mathlib.Core.Path.{subst}
use warden_drydock.Prelude.Dict.{lookup, insert, lookup-insert}
use warden_drydock.Prelude.Result.{Result, ok, err}
use warden_drydock.Proposals.Models.{
  ProposalError, ProposalStatus, draft, rejected, conflict, status_beq, ExactTextChange,
  ProposalVersion, check_version-same, are_bad_changes,
}
use warden_drydock.Proposals.Repository.{
  Key, Repository, key_of, next_version, put, stamp, replace_status, replace_status_of, reject_of,
  finalize, finalize_of, replace_by, correct_of, corrected_version, rebinds,
}
use warden_drydock.Proposals.Machine.{
  allowed, Edits, kept, stamps, creates, moves, IsKeyed, lookup-next_version,
}
use warden_drydock.Proposals.Service.{Ending, sets, finalizes, conclude, or_refused}

-- The status that an ending gives.
abbrev pub status_of : Ending → ProposalStatus
status_of (sets s) = s
status_of (finalizes s m) = s

pub status_beq_iff : (s t : ProposalStatus) → status_beq s t ≡ true → s ≡ t
unfolding status_beq
status_beq_iff s t e = ground arith

pub replace_status-Edits :
    (k : Key) (v : ProposalVersion) (s : ProposalStatus) (r : Repository)
    → lookup k r.items ≡ some v
    → allowed v.status s ≡ true
    → Edits r (replace_status_of k s (some v) r).1
unfolding replace_status_of
replace_status-Edits k v s r found a = elim (Bool-cases (status_beq v.status s)) [
  | inl same ↦ rw same kept
  | inr other ↦ rw other (moves k v s v.published_revision_id kept found a)
]

pub finalize-Edits :
    (k : Key) (v : ProposalVersion) (s : ProposalStatus) (revision : Option String) (r : Repository)
    → lookup k r.items ≡ some v
    → allowed v.status s ≡ true
    → Edits r (finalize_of k s revision (some v) r).1
unfolding finalize_of
finalize-Edits k v s revision r found a = elim (Bool-cases (status_beq v.status s)) [
  | inl same ↦ elim (Bool-cases (rebinds revision v)) [
    | inl clash ↦ rw (same, clash) kept
    | inr fits ↦ rw (same, fits) kept
  ]
  | inr other ↦ rw other (moves k v s _ kept found a)
]

pub or_refused-kept :
    (x : Result ProposalError (Option ProposalVersion) × Repository) → (or_refused x).1 ≡ x.1
unfolding or_refused
or_refused-kept (ok (some v), r) = refl
or_refused-kept (ok none, r) = refl
or_refused-kept (err e, r) = refl

pub reject-Edits :
    (k : Key) (o : Option ProposalVersion) (r : Repository)
    → lookup k r.items ≡ o
    → Edits r (reject_of k o r).1
unfolding reject_of
reject-Edits k none r found = kept
reject-Edits k (some v) r found = elim (Bool-cases (status_beq v.status rejected)) [
  | inl same ↦ rw same kept
  | inr other ↦ elim (Bool-cases (status_beq v.status draft)) [
    | inl open' ↦
        rw (other, open')
          (moves k v rejected v.published_revision_id kept found
            (rw (status_beq_iff v.status draft open') refl))
    | inr closed ↦ rw (other, closed) kept
  ]
]

pub corrects_allowed :
    (s : ProposalStatus)
    → (status_beq s draft || status_beq s conflict) ≡ true
    → allowed s rejected ≡ true
unfolding status_beq
corrects_allowed s h = ground arith

pub replace_by-Edits :
    (k : Key) (v new : ProposalVersion) (x : Result ProposalError ProposalVersion) (r : Repository)
    → ((w : ProposalVersion) → x ≡ ok w → w ≡ new)
    → lookup k r.items ≡ some v
    → allowed v.status rejected ≡ true
    → lookup (key_of new) r.items ≡ none
    → new.status ≡ draft
    → Edits r (replace_by k (record v { status = rejected }) x r).1
unfolding replace_by
replace_by-Edits k v new (err e) r same found a fresh d = kept
replace_by-Edits k v new (ok w) r same found a fresh d =
    subst
      (λ w.
        Edits r (put (key_of w) w (stamp (key_of w) (put k (record v { status = rejected }) r))))
      (sym (same w refl))
      (creates new (stamps (key_of new) (moves k v rejected v.published_revision_id kept found a))
        (still_fresh) d)
  where
    still_fresh : lookup (key_of new) (insert k (record v { status = rejected }) r.items) ≡ none
    still_fresh = elim (Bool-cases (k == key_of new)) [
      | inl e ↦ absurd (clash ((pair_beq_iff k (key_of new)).0 e))
      | inr e ↦ lookup-insert k (key_of new) _ r.items ∙ rw e fresh
    ]
      where
        clash : k ≡ key_of new → ⊥
        clash e = none≢some (sym fresh ∙ ap (λ j. lookup j r.items) (sym e) ∙ found)
          where
            none≢some : ◌≡◌ {A = Option ProposalVersion} none (some v) → ⊥
            none≢some h = cc

pub correct-Edits :
    (diff payload : List ExactTextChange → String) (item : ProposalVersion)
    (changes : List ExactTextChange) (base : Option String) (o : Option ProposalVersion)
    (r : Repository)
    → IsKeyed r
    → lookup (key_of item) r.items ≡ o
    → Edits r (correct_of diff payload item changes base o r).1
unfolding correct_of corrected_version
correct-Edits diff payload item changes base none r h found = kept
correct-Edits diff payload item changes base (some v) r h found =
    elim (Bool-cases (status_beq v.status draft || status_beq v.status conflict)) [
      | inl open' ↦ elim (Bool-cases (are_bad_changes changes)) [
        | inl bad ↦ rw (open', bad) kept
        | inr good ↦
            rw (open', good)
              (replace_by-Edits (key_of item) v new _ r (λ w e. check_version-same new w e) found
                (corrects_allowed v.status open') (lookup-next_version item.proposal_id r h) refl)
      ]
      | inr closed ↦ rw closed kept
    ]
  where
    new : ProposalVersion
    new = corrected_version diff payload item (next_version item.proposal_id r) changes base v

pub conclude-Edits :
    (v : ProposalVersion) (e : Ending) (r : Repository)
    → lookup (key_of v) r.items ≡ some v
    → allowed v.status (status_of e) ≡ true
    → Edits r (conclude v e r).1
unfolding conclude replace_status finalize
conclude-Edits v (sets s) r found a = rw found (replace_status-Edits (key_of v) v s r found a)
conclude-Edits v (finalizes s m) r found a = rw found (finalize-Edits (key_of v) v s _ r found a)
