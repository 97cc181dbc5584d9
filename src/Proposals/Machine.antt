-- ===== src/Proposals/Machine.antt =====
-- The state machine of a version, and the writes that keep to it.
use warden_drydock.Prelude.{
  ◌+◌, ◌≤◌, String, ◌≡◌, refl, ◌∙◌, sym, ap, Bool, true, false, Option, none, some, List, [], ◌∷◌,
  inl, inr, Mem, Bool-cases, Option-cases, arith, nat_eq, string_eq, pair_eq, pair_beq_iff, ◌==◌,
  beq_self,
}
use mathlib.Core.Path.{subst}
use mathlib.Core.Option.{some-injective}
use warden_drydock.Prelude.Dict.{Dict, lookup, values, lookup-insert}
use warden_drydock.Proposals.Models.{
  ProposalStatus, draft, rejected, approved, approving, conflict, published, quarantined,
  ProposalVersion,
}
use warden_drydock.Proposals.Repository.{
  Key, Repository, key_of, last_version, next_version, max, put, stamp,
}

-- The transitions of a version. A rejected or published one has none.
abbrev pub allowed : ProposalStatus → ProposalStatus → Bool
allowed draft approving = true
allowed draft rejected = true
allowed conflict rejected = true
allowed approving draft = true
allowed approving conflict = true
allowed approving quarantined = true
allowed approving approved = true
allowed approving published = true
allowed approved published = true
allowed quarantined published = true
allowed _ _ = false

-- The version with another status, and maybe a revision that it is published as.
abbrev pub moved : ProposalVersion → ProposalStatus → Option String → ProposalVersion
moved v status revision = record v { status = status; published_revision_id = revision }

-- The writes of a call: new drafts under keys that had no version, and allowed transitions.
pub data Edits (r : Repository) : Repository → Type 0 where
  kept : Edits r r
  stamps : {q : Repository} (k : Key) → Edits r q → Edits r (stamp k q)
  creates :
      {q : Repository} (v : ProposalVersion)
      → Edits r q
      → lookup (key_of v) q.items ≡ none
      → v.status ≡ draft
      → Edits r (put (key_of v) v q)
  moves :
      {q : Repository} (k : Key) (v : ProposalVersion) (status : ProposalStatus)
      (revision : Option String)
      → Edits r q
      → lookup k q.items ≡ some v
      → allowed v.status status ≡ true
      → Edits r (put k (moved v status revision) q)

pub Edits-trans : {p q r : Repository} → Edits p q → Edits q r → Edits p r
Edits-trans e kept = e
Edits-trans e (stamps k f) = stamps k (Edits-trans e f)
Edits-trans e (creates v f n d) = creates v (Edits-trans e f) n d
Edits-trans e (moves k v s p f l a) = moves k v s p (Edits-trans e f) l a

-- Versions stand under their own keys.
abbrev pub IsKeyed : Repository → Type 0
IsKeyed r = (k : Key) (v : ProposalVersion) → lookup k r.items ≡ some v → key_of v ≡ k

pub put-IsKeyed :
    (k : Key) (v : ProposalVersion) (r : Repository)
    → key_of v ≡ k
    → IsKeyed r
    → IsKeyed (put k v r)
unfolding put
put-IsKeyed k v r same h j w e = elim (Bool-cases (k == j)) [
  | inl eq ↦
      let w_is : v ≡ w = some-injective _ _ (sym (lookup-insert k j v r.items ∙ rw eq) ∙ e) in
      sym (ap key_of w_is) ∙ same ∙ (pair_beq_iff k j).0 eq
  | inr other ↦ h j w (sym (lookup-insert k j v r.items ∙ rw other) ∙ e)
]

pub Edits-IsKeyed : {r q : Repository} → Edits r q → IsKeyed r → IsKeyed q
unfolding stamp
Edits-IsKeyed kept h = h
Edits-IsKeyed (stamps k e) h = Edits-IsKeyed e h
Edits-IsKeyed (creates v e n d) h = put-IsKeyed (key_of v) v _ refl (Edits-IsKeyed e h)
Edits-IsKeyed (moves k v s p e l a) h =
    put-IsKeyed k (moved v s p) _ (Edits-IsKeyed e h k v l) (Edits-IsKeyed e h)

lookup-Mem :
    (k : Key) (v : ProposalVersion) (d : Dict Key ProposalVersion)
    → lookup k d ≡ some v
    → Mem v (values d)
unfolding lookup values
lookup-Mem k v [] e = absurd (cc)
lookup-Mem k v ((j, w) ∷ d) e = elim (Bool-cases (j == k)) [
  | inl same ↦ inl (sym (some-injective _ _ (rw same at e)))
  | inr other ↦ inr (lookup-Mem k v d (rw other at e))
]

last_version-bounds :
    (v : ProposalVersion) (vs : List ProposalVersion)
    → Mem v vs
    → v.version ≤ last_version v.proposal_id vs
unfolding last_version max
last_version-bounds v [] m = absurd m
last_version-bounds v (w ∷ vs) (inl e) =
    subst (λ (x : ProposalVersion). v.version ≤ last_version v.proposal_id (x ∷ vs)) e
      (ground (arith, beq_self v.proposal_id))
last_version-bounds v (w ∷ vs) (inr m) = ground (arith, last_version-bounds v vs m)

-- The next version of a proposal is not there.
pub lookup-next_version :
    (id : String) (r : Repository) → IsKeyed r → lookup (id, next_version id r) r.items ≡ none
unfolding next_version
lookup-next_version id r h = elim (Option-cases (lookup (id, next_version id r) r.items)) [
  | inl absent ↦ absent
  | inr (v, found) ↦
      let same = h (id, next_version id r) v found in
      let bound = last_version-bounds v (values r.items) (lookup-Mem _ v r.items found) in
      absurd (above v same bound)
]
  where
    above :
        (v : ProposalVersion)
        → key_of v ≡ (id, next_version id r)
        → v.version ≤ last_version v.proposal_id (values r.items)
        → ⊥
    above v same bound =
        let bound' : v.version ≤ last_version id (values r.items) =
          subst (λ i. v.version ≤ last_version i (values r.items)) (ap (λ (k : Key). k.0) same)
            bound in
        let at : v.version ≡ last_version id (values r.items) + 1 = ap (λ (k : Key). k.1) same in
        omega (arith, bound', at)
