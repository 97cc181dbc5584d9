-- ===== src/Proposals/Trail.antt =====
-- The audit of the repository against the versions that it keeps.
use warden_drydock.Prelude.{
  String, ◌≡◌, refl, Option, none, some, List, [], ◌∷◌, ◌++◌, inl, inr, Bool-cases, nat_eq,
  string_eq, pair_eq, ◌==◌, if◌then◌else◌,
}
use warden_drydock.Prelude.Dict.{lookup, lookup-insert}
use warden_drydock.Proposals.Models.{ProposalStatus, ProposalVersion}
use warden_drydock.Proposals.Digests.{ChangeDigest}
use warden_drydock.Proposals.Repository.{Key, Repository, empty, key_of, put, stamp}
use warden_drydock.Proposals.Machine.{moved, Edits, kept, stamps, creates, moves, IsKeyed}
use warden_drydock.Proposals.Service.{Callbacks}
use warden_drydock.Proposals.Service.Calls.{Calls, Calls-Edits}

-- The last status that the audit has for the key.
unfoldable pub last_status : Key → List (Key × ProposalStatus) → Option ProposalStatus
last_status k [] = none
last_status k ((j, s) ∷ audit) =
    let later = last_status k audit in
    elim later [ none ↦ if j == k then some s else none | some t ↦ some t ]

-- The status of the version that the key has.
unfoldable pub status_at : Option ProposalVersion → Option ProposalStatus
status_at none = none
status_at (some v) = some v.status

last_status-append :
    (k j : Key) (s : ProposalStatus) (audit : List (Key × ProposalStatus))
    → last_status k (audit ++ (j, s) ∷ []) ≡ (if j == k then some s else last_status k audit)
unfolding last_status
last_status-append k j s [] = refl
last_status-append k j s ((i, t) ∷ audit) = elim (Bool-cases (j == k)) [
  | inl same ↦ rw (last_status-append k j s audit, same) refl
  | inr other ↦ rw (last_status-append k j s audit, other) refl
]

-- For every key, the audit ends with the status of its version.
abbrev pub IsTrailed : Repository → Type 0
IsTrailed r = (k : Key) → last_status k r.audit ≡ status_at (lookup k r.items)

put-IsTrailed :
    (j : Key) (v : ProposalVersion) (r : Repository) → IsTrailed r → IsTrailed (put j v r)
unfolding put status_at
put-IsTrailed j v r h k = elim (Bool-cases (j == k)) [
  | inl same ↦ rw (last_status-append k j v.status r.audit, lookup-insert j k v r.items, same) refl
  | inr other ↦
      rw (last_status-append k j v.status r.audit, lookup-insert j k v r.items, other) (h k)
]

Edits-IsTrailed : {r q : Repository} → Edits r q → IsTrailed r → IsTrailed q
unfolding stamp
Edits-IsTrailed kept h = h
Edits-IsTrailed (stamps k e) h = Edits-IsTrailed e h
Edits-IsTrailed (creates v e n d) h = put-IsTrailed (key_of v) v _ (Edits-IsTrailed e h)
Edits-IsTrailed (moves k v s p e l a) h = put-IsTrailed k (moved v s p) _ (Edits-IsTrailed e h)

pub empty-IsKeyed : IsKeyed empty
unfolding lookup
empty-IsKeyed k v e = absurd (cc)

module _ (sha256 : String → String) (dumps : List ChangeDigest → String) (c : Callbacks) where
  -- From an empty repository, after any calls of the service in any order and with any callbacks, the
  -- last entry of the audit for a key has the status of the version under that key, and there is an
  -- entry only where there is a version.
  pub Calls-IsTrailed :
      (r : Repository) (k : Key)
      → Calls sha256 dumps c empty r
      → last_status k r.audit ≡ status_at (lookup k r.items)
  unfolding last_status lookup status_at
  Calls-IsTrailed r k calls =
      Edits-IsTrailed (Calls-Edits sha256 dumps c empty r calls empty-IsKeyed) (λ k. refl) k
