-- ===== src/Proposals/Frozen.antt =====
-- What the state machine keeps: the contents of every version, and the versions that are final.
use warden_drydock.Prelude.{
  String, ◌≡◌, refl, ◌∙◌, sym, ap, Bool, true, false, Option, none, some, List, inl, inr,
  Bool-cases, arith, nat_eq, string_eq, pair_eq, pair_beq_iff, ◌==◌,
}
use mathlib.Core.Path.{subst}
use mathlib.Core.Option.{some-injective}
use warden_drydock.Prelude.Dict.{lookup, lookup-insert}
use warden_drydock.Proposals.Models.{ProposalStatus, rejected, published, ProposalVersion}
use warden_drydock.Proposals.Digests.{ChangeDigest}
use warden_drydock.Proposals.Repository.{Key, Repository, key_of, put, stamp}
use warden_drydock.Proposals.Machine.{allowed, moved, Edits, kept, stamps, creates, moves, IsKeyed}
use warden_drydock.Proposals.Service.{Callbacks}
use warden_drydock.Proposals.Service.Calls.{Calls, Calls-Edits}

abbrev pub is_final : ProposalStatus → Bool
is_final rejected = true
is_final published = true
is_final _ = false

-- The later version has the earlier one's contents, and is the earlier one where that was final.
pub record Evolves (v w : ProposalVersion) : Type 0 where
  pub contents : w ≡ moved v w.status w.published_revision_id
  pub final : is_final v.status ≡ true → w ≡ v

-- The key has the version, or what has become of it.
pub record Remains (k : Key) (v : ProposalVersion) (r : Repository) : Type 0 where
  pub now : ProposalVersion
  pub found : lookup k r.items ≡ some now
  pub evolves : Evolves v now

not_allowed : (s t : ProposalStatus) → is_final s ≡ true → allowed s t ≡ true → ⊥
not_allowed s t f a = ground arith

put-Remains :
    (j k : Key) (v x : ProposalVersion) (r : Repository)
    → (h : Remains k v r) → (j ≡ k → Evolves v x)
    → Remains k v (put j x r)
unfolding put
put-Remains j k v x r h new = elim (Bool-cases (j == k)) [
  | inl same ↦ record {
    now = x;
    found = lookup-insert j k x r.items ∙ rw same refl;
    evolves = new ((pair_beq_iff j k).0 same);
  }
  | inr other ↦ record {
    now = h.now;
    found = lookup-insert j k x r.items ∙ rw other h.found;
    evolves = h.evolves;
  }
]

moved-Evolves :
    (v w : ProposalVersion) (s : ProposalStatus) (p : Option String)
    → allowed w.status s ≡ true
    → Evolves v w
    → Evolves v (moved w s p)
moved-Evolves v w s p a h = record {
  contents = ap (λ x. moved x s p) h.contents;
  final = λ f. absurd (
      not_allowed v.status s f
        (subst (λ (x : ProposalVersion). allowed x.status s ≡ true) (h.final f) a));
}

Edits-Remains :
    {r q : Repository} (k : Key) (v : ProposalVersion)
    → Edits r q
    → lookup k r.items ≡ some v
    → Remains k v q
unfolding stamp
Edits-Remains k v kept e = record {
  now = v;
  found = e;
  evolves = record { contents = refl; final = λ f. refl };
}
Edits-Remains k v (stamps j h) e =
    let before = Edits-Remains k v h e in
    record { now = before.now; found = before.found; evolves = before.evolves }
Edits-Remains k v (creates {q = q} x h free d) e =
    let before = Edits-Remains k v h e in
    put-Remains (key_of x) k v x q before (λ same.
      absurd (taken before.now (sym (ap (λ i. lookup i q.items) same ∙ before.found) ∙ free)))
  where
    taken : (w : ProposalVersion) → ◌≡◌ {A = Option ProposalVersion} (some w) none → ⊥
    taken w same = cc
Edits-Remains k v (moves {q = q} j x s p h l a) e =
    let before = Edits-Remains k v h e in
    put-Remains j k v (moved x s p) q before (λ same. moved-Evolves v x s p a (
      subst (Evolves v)
        (some-injective _ _ (sym (ap (λ i. lookup i q.items) same ∙ before.found) ∙ l))
        before.evolves))

module _ (sha256 : String → String) (dumps : List ChangeDigest → String) (c : Callbacks) where
  -- A version that is in the repository stays there under its key through any calls of the service,
  -- in any order and with any callbacks, and keeps its changes, digests, base revision and every
  -- other part but its status and the revision that it is published as. Once it is rejected or
  -- published it does not change at all. The calls are those of `ProposalService`: the repository's
  -- `save_editor_metadata` and `add_editor`, which rewrite the editor metadata of a version that may be
  -- final, are not among them. (It is assumed that at first versions stand under their own keys.)
  pub Calls-Remains :
      (r q : Repository) (k : Key) (v : ProposalVersion)
      → Calls sha256 dumps c r q
      → IsKeyed r
      → lookup k r.items ≡ some v
      → Remains k v q
  Calls-Remains r q k v calls h e = Edits-Remains k v (Calls-Edits sha256 dumps c r q calls h) e
