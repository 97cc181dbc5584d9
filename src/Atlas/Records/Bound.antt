-- ===== src/Atlas/Records/Bound.antt =====
-- What the records and connections of a projected snapshot have.
use warden_drydock.Prelude.{
  ℕ, suc, String, ◌≡◌, refl, ap, true, List, [], ◌∷◌, ◌++◌, Option, none, some, inl, inr, ◌==◌,
  string_eq, contains, All, All-append, All-map, arith, Bool-cases, beq_self,
}
use warden_drydock.Prelude.Dict.{Dict}
use warden_drydock.Prelude.Sets.{distinct}
use warden_drydock.Prelude.Sort.{sort, All-sort}
use warden_drydock.Prelude.Result.{ok, err, ◌>>=◌, require, or_raise, bind-eq-ok, require-eq-ok}
use warden_drydock.Campaign.Json.{Json}
use warden_drydock.Campaign.Text.{is_empty, normalize_newlines}
use warden_drydock.Campaign.Connections.{Connection, parse_connections}
use warden_drydock.Campaign.Frontmatter.{frontmatter, text_field}
use warden_drydock.Revisions.Models.{value_error, file_not_found, FileHash, SnapshotManifest}
use warden_drydock.Revisions.Canonical.{SourceEntry, SourceTree}
use warden_drydock.Atlas.Models.{
  AtlasRecord, AtlasEdge, edge_id, is_valid_edge, is_valid_record, status_from, within,
}
use warden_drydock.Atlas.Records.Ids.{distinct-sort_ids, distinct_snoc}
use warden_drydock.Atlas.Records.{
  Parsed, edge_of, record_of, ids_of, parse_records, read_records, read_file, file_records,
  with_file, made_record, made_edge, record_edges, all_edges, well_formed, bytes_at, is_passed_over,
  read_metadata, by_id, by_occurrence,
}

-- Both ends of the edge are records.
abbrev pub IsBound : List String → AtlasEdge → Type 0
IsBound ids e = (contains e.source_record_id ids ≡ true) × (contains e.target_record_id ids ≡ true)

module _ (sha256 : String → String) (dumps : ℕ → String → String → String)
    (casefold : String → String) (decode : String → Option String)
    (loads : String → Option Json) where
  made_edge-ends :
      (revision source : String) (n : ℕ) (c : Connection) (e : AtlasEdge)
      → made_edge sha256 dumps casefold decode loads revision source n c ≡ ok e
      → (e.source_record_id ≡ source) × (e.target_record_id ≡ c.target_id)
  unfolding made_edge edge_of
  made_edge-ends revision source n c e h =
      let (id, e1, h1) = bind-eq-ok (edge_id sha256 dumps revision source n) _ _ h in
      let (_, e2, h2) =
        bind-eq-ok (require (is_valid_edge sha256 dumps (edge_of id source n c)) value_error) _ _
          h1 in
      let q : e ≡ edge_of id source n c = cc (h2) in
      (ap (λ (x : AtlasEdge). x.source_record_id) q, ap (λ (x : AtlasEdge). x.target_record_id) q)

  record_edges-IsBound :
      (known : List String) (revision source : String) (n : ℕ) (cs : List Connection)
      (es : List AtlasEdge)
      → contains source known ≡ true
      → record_edges sha256 dumps casefold decode loads known revision source n cs ≡ ok es
      → All (IsBound known) es
  unfolding record_edges
  record_edges-IsBound known revision source n [] es at h = let q : es ≡ [] = cc (h) in rw q tt
  record_edges-IsBound known revision source n (c ∷ cs) es at h =
      let (_, e1, h1) = bind-eq-ok (require (contains c.target_id known) value_error) _ _ h in
      let (e, e2, h2) =
        bind-eq-ok (made_edge sha256 dumps casefold decode loads revision source n c) _ _ h1 in
      let (rest, e3, h3) =
        bind-eq-ok
          (record_edges sha256 dumps casefold decode loads known revision source (suc n) cs) _ _
          h2 in
      let (s, t) = made_edge-ends revision source n c e e2 in
      let q : es ≡ e ∷ rest = cc (h3) in
      rw q (
        (rw s at, rw t (require-eq-ok (contains c.target_id known) _ e1)),
        record_edges-IsBound known revision source (suc n) cs rest at e3,
      )

  all_edges-IsBound :
      (known : List String) (revision : String) (rs : List AtlasRecord) (es : List AtlasEdge)
      → All (λ (r : AtlasRecord). contains r.record_id known ≡ true) rs
      → all_edges sha256 dumps casefold decode loads known revision rs ≡ ok es
      → All (IsBound known) es
  unfolding all_edges
  all_edges-IsBound known revision [] es at h = let q : es ≡ [] = cc (h) in rw q tt
  all_edges-IsBound known revision (r ∷ rs) es at h =
      let parsed = parse_connections casefold r.content r.record_id "" in
      let (_, e1, h1) =
        bind-eq-ok (require (well_formed sha256 dumps casefold decode loads parsed.1) value_error) _
          _ h in
      let (here, e2, h2) =
        bind-eq-ok
          (record_edges sha256 dumps casefold decode loads known revision r.record_id 1 parsed.0) _
          _ h1 in
      let (rest, e3, h3) =
        bind-eq-ok (all_edges sha256 dumps casefold decode loads known revision rs) _ _ h2 in
      let q : es ≡ here ++ rest = cc (h3) in
      rw q (
        All-append (IsBound known) here rest
          (record_edges-IsBound known revision r.record_id 1 parsed.0 here at.0 e2)
          (all_edges-IsBound known revision rs rest at.1 e3))

  made_record-id :
      (id content : String) (metadata : Dict String Json) (r : AtlasRecord)
      → made_record sha256 dumps casefold decode loads id content metadata ≡ ok r
      → r.record_id ≡ id
  unfolding made_record record_of
  made_record-id id content metadata r h =
      let (status, e1, h1) = bind-eq-ok (status_from (text_field "status" metadata)) _ _ h in
      let made = record_of sha256 dumps casefold decode loads id content metadata status in
      let (_, e2, h2) = bind-eq-ok (require (is_valid_record sha256 made) value_error) _ _ h1 in
      let q : r ≡ made = cc (h2) in ap (λ (x : AtlasRecord). x.record_id) q

  distinct-with_file :
      (id : Option String) (content : String) (metadata : Dict String Json)
      (rs ss : List AtlasRecord)
      → distinct (ids_of rs) ≡ true
      → with_file sha256 dumps casefold decode loads id content metadata rs ≡ ok ss
      → distinct (ids_of ss) ≡ true
  unfolding with_file
  distinct-with_file none content metadata rs ss d h = let q : ss ≡ rs = cc (h) in rw q d
  distinct-with_file (some id) content metadata rs ss d h = elim (Bool-cases (is_empty id)) [
    | inl e ↦ let h' : ok rs ≡ ok ss = rw e at h in let q : ss ≡ rs = cc (h') in rw q d
    | inr e ↦ elim (Bool-cases (contains id (ids_of rs))) [
      | inl twice ↦ let h' : err value_error ≡ ok ss = rw (e, twice) at h in absurd (cc (h'))
      | inr fresh ↦
          let h' : (made_record sha256 dumps casefold decode loads id content metadata >>= λ r.
          ok (rs ++ r ∷ []))
              ≡ ok ss =
            rw (e, fresh) at h in
          let (r, e1, h1) =
            bind-eq-ok (made_record sha256 dumps casefold decode loads id content metadata) _ _
              h' in
          let q : ss ≡ rs ++ r ∷ [] = cc (h1) in
          rw q (distinct_snoc r rs d (rw (made_record-id id content metadata r e1) fresh))
    ]
  ]

  distinct-read_file :
      (path : String) (tree : List SourceEntry) (rs ss : List AtlasRecord)
      → distinct (ids_of rs) ≡ true
      → read_file sha256 dumps casefold decode loads path tree rs ≡ ok ss
      → distinct (ids_of ss) ≡ true
  unfolding read_file
  distinct-read_file path tree rs ss d h =
      let (bytes, e1, h1) = bind-eq-ok (or_raise (bytes_at path tree) file_not_found) _ _ h in
      let (decoded, e2, h2) = bind-eq-ok (or_raise (decode bytes) value_error) _ _ h1 in
      let content = normalize_newlines decoded in
      let metadata = frontmatter loads content in
      distinct-with_file (text_field "id" metadata) content metadata rs ss d h2

  distinct-file_records :
      (path : String) (tree : List SourceEntry) (rs ss : List AtlasRecord)
      → distinct (ids_of rs) ≡ true
      → file_records sha256 dumps casefold decode loads path tree rs ≡ ok ss
      → distinct (ids_of ss) ≡ true
  unfolding file_records
  distinct-file_records path tree rs ss d h = elim (Bool-cases (is_passed_over path)) [
    | inl e ↦ let h' : ok rs ≡ ok ss = rw e at h in let q : ss ≡ rs = cc (h') in rw q d
    | inr e ↦ distinct-read_file path tree rs ss d (rw e at h)
  ]

  distinct-read_records :
      (fs : List FileHash) (tree : List SourceEntry) (rs ss : List AtlasRecord)
      → distinct (ids_of rs) ≡ true
      → read_records sha256 dumps casefold decode loads fs tree rs ≡ ok ss
      → distinct (ids_of ss) ≡ true
  unfolding read_records
  distinct-read_records [] tree rs ss d h = let q : ss ≡ rs = cc (h) in rw q d
  distinct-read_records (f ∷ fs) tree rs ss d h =
      let (more, e1, h1) =
        bind-eq-ok (file_records sha256 dumps casefold decode loads f.relative_path tree rs) _ _
          h in
      distinct-read_records fs tree more ss
        (distinct-file_records f.relative_path tree rs more d e1) h1

  all_known :
      (rs : List AtlasRecord)
      → All (λ (r : AtlasRecord). contains r.record_id (ids_of rs) ≡ true) rs
  all_known [] = tt
  all_known (r ∷ rs) = (
    rw (beq_self r.record_id) refl,
    All-map (λ (s : AtlasRecord) h. ground (arith, h)) rs (all_known rs),
  )

  -- The records of a projected snapshot have distinct IDs, and both ends of every connection are records.
  pub parse_records-IsBound :
      (m : SnapshotManifest) (tree : SourceTree) (p : Parsed)
      → parse_records sha256 dumps casefold decode loads m tree ≡ ok p
      → (distinct (ids_of p.records) ≡ true) × All (IsBound (ids_of p.records)) p.edges
  unfolding parse_records distinct
  parse_records-IsBound m tree p h =
      let (metadata, e1, h1) =
        bind-eq-ok
          (read_metadata sha256 dumps casefold decode loads m.campaign_id
            (bytes_at ".drydock.json" tree.entries))
          _ _ h in
      let (_, e2, h2) = bind-eq-ok (require (within 1 200 metadata.0) value_error) _ _ h1 in
      let (_, e3, h3) = bind-eq-ok (require (metadata.1 == "mothership") value_error) _ _ h2 in
      let (found, e4, h4) =
        bind-eq-ok (read_records sha256 dumps casefold decode loads m.files tree.entries []) _ _
          h3 in
      let records : List AtlasRecord = sort by_id found in
      let (edges, e5, h5) =
        bind-eq-ok
          (all_edges sha256 dumps casefold decode loads (ids_of records) m.revision_id records) _ _
          h4 in
      let q : p ≡ record {
        campaign_name = metadata.0;
        adapter_id = metadata.1;
        records = records;
        edges = sort by_occurrence edges;
      } =
        cc (h5) in
      rw q (
        distinct-sort_ids by_id found (distinct-read_records m.files tree.entries [] found refl e4),
        All-sort by_occurrence (IsBound (ids_of records)) edges
            (all_edges-IsBound (ids_of records) m.revision_id records edges (all_known records) e5),
      )
