-- ===== src/Atlas/History/Differences.antt =====
-- The changes of one record, described by what differs.
use package.text.Mathlib.TextEquality.{eq_iff}
use warden_drydock.Prelude.{
  String, ◌≡◌, ◌≢◌, refl, sym, ap, ◌∙◌, Bool, true, false, List, [], ◌∷◌, ◌++◌, Option, none, some,
  inl, inr, ◌↔◌, ◌==◌, string_eq, option_eq, option_beq_iff, &&-true, if◌then◌else◌, Mem,
  Mem-append, Mem-append_left, Mem-append_right, arith,
}
use mathlib.Core.Path.{subst}
use warden_drydock.Prelude.Result.{Result, ok}
use warden_drydock.Revisions.Models.{RevisionError, SnapshotManifest}
use warden_drydock.Atlas.Models.{
  AtlasRecord, AtlasHistoryChange, HistoryChangeKind, added, removed, content_changed,
  metadata_changed, authority_transition, Authority, preparation, canon, revealed, StatusKind,
  known, missing, unknown, RawStatus, kind_beq, status_beq, authority_beq,
}
use warden_drydock.Atlas.History.{
  added_change, removed_change, kept_change, kept_changes, same_metadata, kinds_of, removal,
  changes_of,
}

-- What a kind of change says of a record that both revisions have.
abbrev pub Differ : HistoryChangeKind → AtlasRecord → AtlasRecord → Type 0
Differ content_changed b a = b.content_digest ≢ a.content_digest
Differ metadata_changed b a =
    ¬ ((b.record_type ≡ a.record_type) × (b.name ≡ a.name) × (b.raw_status ≡ a.raw_status))
Differ authority_transition b a = b.authority ≢ a.authority
Differ _ b a = ⊥

-- The changes of a record, by what the parent and the revision have under its ID.
abbrev pub Difference :
    SnapshotManifest
    → String
    → Option AtlasRecord
    → Option AtlasRecord
    → AtlasHistoryChange
    → Type 0
Difference m id none none c = ⊥
Difference m id none (some a) c = c ≡ added_change m id a
Difference m id (some b) none c =
    (p : String) × (m.parent_revision ≡ some p) × (c ≡ removed_change p id b)
Difference m id (some b) (some a) c =
    (k : HistoryChangeKind) × Differ k b a × (c ≡ kept_change m id b a k)

Mem-if :
    (x : Bool) (k j : HistoryChangeKind)
    → Mem k (if x then [] else j ∷ []) ↔ ((k ≡ j) × (x ≡ false))
Mem-if true k j = ((λ m. absurd m), (λ h. absurd (cc (h.1))))
Mem-if false k j =
    ((λ m. elim m [ inl e ↦ (e, refl) | inr none_left ↦ absurd none_left ]), (λ h. inl h.0))

authority_beq_self : (a : Authority) → authority_beq a a ≡ true
unfolding authority_beq
authority_beq_self preparation = refl
authority_beq_self canon = refl
authority_beq_self revealed = refl

authority_beq_eq : (a b : Authority) → authority_beq a b ≡ true → a ≡ b
unfolding authority_beq
authority_beq_eq a b h = ground (arith, h)

kind_beq_self : (a : StatusKind) → kind_beq a a ≡ true
unfolding kind_beq
kind_beq_self known = refl
kind_beq_self missing = refl
kind_beq_self unknown = refl

kind_beq_eq : (a b : StatusKind) → kind_beq a b ≡ true → a ≡ b
unfolding kind_beq
kind_beq_eq a b h = ground (arith, h)

status_beq_iff : (a b : RawStatus) → (status_beq a b ≡ true) ↔ (a ≡ b)
unfolding status_beq
status_beq_iff a b = (
  (λ h.
      let (k, v) = &&-true (kind_beq a.kind b.kind) (a.value == b.value) h in
      let same : a.kind ≡ b.kind = kind_beq_eq a.kind b.kind k in
      let held : a.value ≡ b.value = (option_beq_iff a.value b.value).0 v in cc (same, held)),
  (λ e. rw e (ground (arith, kind_beq_self b.kind, (option_beq_iff b.value b.value).1 refl))),
)

same_metadata_iff :
    (b a : AtlasRecord)
    → (same_metadata b a ≡ true)
      ↔ ((b.record_type ≡ a.record_type) × (b.name ≡ a.name) × (b.raw_status ≡ a.raw_status))
unfolding same_metadata
same_metadata_iff b a = (
  (λ h. (
    (eq_iff b.record_type a.record_type).0 (ground (arith, h)),
    (eq_iff b.name a.name).0 (ground (arith, h)),
    (status_beq_iff b.raw_status a.raw_status).0 (ground (arith, h)),
  )),
  (λ h. ground (
    arith,
    (eq_iff b.record_type a.record_type).1 h.0,
    (eq_iff b.name a.name).1 h.1,
    (status_beq_iff b.raw_status a.raw_status).1 h.2,
  )),
)

-- A test that decides a proposition says by `false` that it does not hold.
false_iff : {P : Type 0} (x : Bool) → (x ≡ true) ↔ P → (x ≡ false) ↔ (¬ P)
false_iff true h = ((λ e. absurd (cc (e))), (λ n. absurd (n (h.0 refl))))
false_iff false h = ((λ e p. cc (h.1 p)), (λ n. refl))

authority_beq_iff : (a b : Authority) → (authority_beq a b ≡ true) ↔ (a ≡ b)
authority_beq_iff a b = (authority_beq_eq a b, (λ e. rw e (authority_beq_self b)))

module _ (b a : AtlasRecord) where
  content_part : (b.content_digest == a.content_digest ≡ false) ↔ Differ content_changed b a
  content_part =
      false_iff (b.content_digest == a.content_digest) (eq_iff b.content_digest a.content_digest)

  metadata_part : (same_metadata b a ≡ false) ↔ Differ metadata_changed b a
  metadata_part = false_iff (same_metadata b a) (same_metadata_iff b a)

  authority_part : (authority_beq b.authority a.authority ≡ false) ↔ Differ authority_transition b a
  authority_part =
      false_iff (authority_beq b.authority a.authority) (authority_beq_iff b.authority a.authority)

  kinds_of-Differ : (k : HistoryChangeKind) → Mem k (kinds_of b a) → Differ k b a
  unfolding kinds_of
  kinds_of-Differ k m = elim (Mem-append k _ _ m) [
    | inl earlier ↦ elim (Mem-append k _ _ earlier) [
      | inl here ↦
          let (e, f) = (Mem-if (b.content_digest == a.content_digest) k content_changed).0 here in
          subst (λ j. Differ j b a) (sym e) (content_part.0 f)
      | inr here ↦
          let (e, f) = (Mem-if (same_metadata b a) k metadata_changed).0 here in
          subst (λ j. Differ j b a) (sym e) (metadata_part.0 f)
    ]
    | inr last ↦
        let (e, f) =
          (Mem-if (authority_beq b.authority a.authority) k authority_transition).0 last in
        subst (λ j. Differ j b a) (sym e) (authority_part.0 f)
  ]

  abbrev contents : List HistoryChangeKind
  contents = if b.content_digest == a.content_digest then [] else content_changed ∷ []

  abbrev metadata : List HistoryChangeKind
  metadata = if same_metadata b a then [] else metadata_changed ∷ []

  abbrev authorities : List HistoryChangeKind
  authorities = if authority_beq b.authority a.authority then [] else authority_transition ∷ []

  Differ-kinds_of : (k : HistoryChangeKind) → Differ k b a → Mem k (kinds_of b a)
  unfolding kinds_of
  Differ-kinds_of content_changed d =
      Mem-append_left content_changed (contents ++ metadata) authorities (
        Mem-append_left content_changed contents metadata
          ((Mem-if _ _ content_changed).1 (refl, content_part.1 d)))
  Differ-kinds_of metadata_changed d =
      Mem-append_left metadata_changed (contents ++ metadata) authorities (
        Mem-append_right metadata_changed contents metadata
          ((Mem-if _ _ metadata_changed).1 (refl, metadata_part.1 d)))
  Differ-kinds_of authority_transition d =
      Mem-append_right authority_transition (contents ++ metadata) authorities
        ((Mem-if _ _ authority_transition).1 (refl, authority_part.1 d))
  Differ-kinds_of added d = absurd d
  Differ-kinds_of removed d = absurd d

  module _ (m : SnapshotManifest) (id : String) (c : AtlasHistoryChange) where
    kept_kind :
        (ks : List HistoryChangeKind)
        → Mem c (kept_changes m id b a ks)
        → (k : HistoryChangeKind) × Mem k ks × (c ≡ kept_change m id b a k)
    unfolding kept_changes
    kept_kind [] i = absurd i
    kept_kind (k ∷ ks) (inl e) = (k, inl refl, e)
    kept_kind (k ∷ ks) (inr i) = let (j, at, e) = kept_kind ks i in (j, inr at, e)

    kind_kept :
        (ks : List HistoryChangeKind) (k : HistoryChangeKind)
        → Mem k ks
        → c ≡ kept_change m id b a k
        → Mem c (kept_changes m id b a ks)
    unfolding kept_changes
    kind_kept [] k i e = absurd i
    kind_kept (j ∷ ks) k (inl at) e = inl (e ∙ ap (kept_change m id b a) at)
    kind_kept (j ∷ ks) k (inr i) e = inr (kind_kept ks k i e)

found_one :
    (c d : AtlasHistoryChange) (found : List AtlasHistoryChange)
    → ◌≡◌ {A = Result RevisionError (List AtlasHistoryChange)} (ok (d ∷ [])) (ok found)
    → Mem c found
    → c ≡ d
found_one c d found e i = let q : found ≡ d ∷ [] = cc (e) in one (rw q at i)
  where
    one : Mem c (d ∷ []) → c ≡ d
    one (inl same) = same
    one (inr none_left) = absurd none_left

removal-Difference :
    (m : SnapshotManifest) (id : String) (b : AtlasRecord) (parent : Option String)
    (c : AtlasHistoryChange)
    → ((found : List AtlasHistoryChange) × (removal parent id b ≡ ok found) × Mem c found)
      ↔ ((p : String) × (parent ≡ some p) × (c ≡ removed_change p id b))
unfolding removal
removal-Difference m id b none c =
    ((λ (found, e, i). absurd (cc (e))), (λ (p, e, is). absurd (cc (e))))
removal-Difference m id b (some p) c = (
  (λ (found, e, i). (p, refl, found_one c (removed_change p id b) found e i)),
  (λ (q, e, is).
      let at : p ≡ q = cc (e) in
      (removed_change p id b ∷ [], refl, inl (is ∙ ap (λ x. removed_change x id b) (sym at)))),
)

-- What is found for a record are its differences.
pub changes_of-Difference :
    (m : SnapshotManifest) (id : String) (before after : Option AtlasRecord)
    (c : AtlasHistoryChange)
    → ((found : List AtlasHistoryChange) × (changes_of m id before after ≡ ok found) × Mem c found)
      ↔ Difference m id before after c
unfolding changes_of
changes_of-Difference m id none none c =
    ((λ (found, e, i). let q : found ≡ [] = cc (e) in rw q at i), (λ d. absurd d))
changes_of-Difference m id none (some a) c = (
  (λ (found, e, i). found_one c (added_change m id a) found e i),
  (λ d. (added_change m id a ∷ [], refl, inl d)),
)
changes_of-Difference m id (some b) none c = removal-Difference m id b m.parent_revision c
changes_of-Difference m id (some b) (some a) c = (
  (λ (found, e, i).
      let q : found ≡ kept_changes m id b a (kinds_of b a) = cc (e) in
      let (k, at, is) = kept_kind b a m id c (kinds_of b a) (rw q at i) in
      (k, kinds_of-Differ b a k at, is)),
  (λ (k, d, is). (
    kept_changes m id b a (kinds_of b a),
    refl,
    kind_kept b a m id c (kinds_of b a) k (Differ-kinds_of b a k d) is,
  )),
)
