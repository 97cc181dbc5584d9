-- ===== src/Campaign/Related/Within.antt =====
-- The expansion of a neighbourhood against the walks of the graph.
use mathlib.Core.Path.{subst}
use text.Mathlib.TextEquality.{eq_iff}
use warden_drydock.Prelude.{
  ℕ, zero, suc, ◌+◌, String, ◌≡◌, refl, ◌∙◌, true, false, List, [], ◌∷◌, ◌++◌, ◌&&◌, not, ◌↔◌, inl,
  inr, ◌==◌, string_eq, contains, filter, arith, Bool-cases, Mem, sym, beq_self,
}
use warden_drydock.Prelude.Sets.{
  distinct, distinct-append, distinct-dedup, contains-append, contains-filter, contains-dedup,
}
use warden_drydock.Campaign.Connections.{Connection}
use warden_drydock.Campaign.Graph.{Graph}
use warden_drydock.Campaign.Related.{is_known, targets_of, sources_of, next_frontier, expand}

-- A connection leads from one to the other, in either direction.
pub data Linked (cs : List Connection) (y x : String) : Type 0 where
  forth : (c : Connection) → Mem c cs → c.source_id ≡ y → c.target_id ≡ x → Linked cs y x
  back : (c : Connection) → Mem c cs → c.target_id ≡ y → c.source_id ≡ x → Linked cs y x

-- A walk of at most `n` connections from the focus, over entities of the graph.
pub data Within (g : Graph) (focus : String) : ℕ → String → Type 0 where
  start : {n : ℕ} → Within g focus n focus
  step :
      {n : ℕ} {y x : String}
      → Within g focus n y
      → Linked g.connections y x
      → is_known g x ≡ true
      → Within g focus (suc n) x

weaken :
    (g : Graph) (focus : String) {n : ℕ} {x : String}
    → Within g focus n x
    → Within g focus (suc n) x
weaken g focus start = start
weaken g focus (step w l k) = step (weaken g focus w) l k

targets_of_sound :
    (cs : List Connection) (fr : List String) (x : String)
    → contains x (targets_of cs fr) ≡ true
    → (c : Connection) × Mem c cs × (contains c.source_id fr ≡ true) × (c.target_id ≡ x)
unfolding targets_of
targets_of_sound [] fr x h = absurd (cc)
targets_of_sound (c ∷ cs) fr x h = elim (Bool-cases (contains c.source_id fr)) [
  | inl e ↦ elim (Bool-cases (x == c.target_id)) [
    | inl same ↦ (c, inl refl, e, sym ((eq_iff x c.target_id).0 same))
    | inr other ↦
        let rest : contains x (targets_of cs fr) ≡ true = ground (arith, h, e, other) in
        let (d, m, p, q) = targets_of_sound cs fr x rest in (d, inr m, p, q)
  ]
  | inr e ↦
      let rest : contains x (targets_of cs fr) ≡ true = ground (arith, h, e) in
      let (d, m, p, q) = targets_of_sound cs fr x rest in (d, inr m, p, q)
]

sources_of_sound :
    (cs : List Connection) (fr : List String) (x : String)
    → contains x (sources_of cs fr) ≡ true
    → (c : Connection) × Mem c cs × (contains c.target_id fr ≡ true) × (c.source_id ≡ x)
unfolding sources_of
sources_of_sound [] fr x h = absurd (cc)
sources_of_sound (c ∷ cs) fr x h = elim (Bool-cases (contains c.target_id fr)) [
  | inl e ↦ elim (Bool-cases (x == c.source_id)) [
    | inl same ↦ (c, inl refl, e, sym ((eq_iff x c.source_id).0 same))
    | inr other ↦
        let rest : contains x (sources_of cs fr) ≡ true = ground (arith, h, e, other) in
        let (d, m, p, q) = sources_of_sound cs fr x rest in (d, inr m, p, q)
  ]
  | inr e ↦
      let rest : contains x (sources_of cs fr) ≡ true = ground (arith, h, e) in
      let (d, m, p, q) = sources_of_sound cs fr x rest in (d, inr m, p, q)
]

targets_of_full :
    (cs : List Connection) (fr : List String) (c : Connection)
    → Mem c cs
    → contains c.source_id fr ≡ true
    → contains c.target_id (targets_of cs fr) ≡ true
unfolding targets_of
targets_of_full [] fr c m h = absurd m
targets_of_full (d ∷ cs) fr c (inl e) h =
    let h' : contains d.source_id fr ≡ true = rw e at h in rw e (rw (h', beq_self d.target_id) refl)
targets_of_full (d ∷ cs) fr c (inr m) h = ground (arith, targets_of_full cs fr c m h)

sources_of_full :
    (cs : List Connection) (fr : List String) (c : Connection)
    → Mem c cs
    → contains c.target_id fr ≡ true
    → contains c.source_id (sources_of cs fr) ≡ true
unfolding sources_of
sources_of_full [] fr c m h = absurd m
sources_of_full (d ∷ cs) fr c (inl e) h =
    let h' : contains d.target_id fr ≡ true = rw e at h in rw e (rw (h', beq_self d.source_id) refl)
sources_of_full (d ∷ cs) fr c (inr m) h = ground (arith, sources_of_full cs fr c m h)

module _ (g : Graph) where
  abbrev neighbours : List String → List String
  neighbours fr = targets_of g.connections fr ++ sources_of g.connections fr

  neighbours_sound :
      (fr : List String) (x : String)
      → contains x (neighbours fr) ≡ true
      → (y : String) × (contains y fr ≡ true) × Linked g.connections y x
  neighbours_sound fr x h = elim (Bool-cases (contains x (targets_of g.connections fr))) [
    | inl e ↦
        let (c, m, p, q) = targets_of_sound g.connections fr x e in
        (c.source_id, p, forth c m refl q)
    | inr e ↦
        let rest : contains x (sources_of g.connections fr) ≡ true = ground (
          arith,
          h,
          e,
          contains-append x (targets_of g.connections fr) (sources_of g.connections fr),
        ) in
        let (c, m, p, q) = sources_of_sound g.connections fr x rest in
        (c.target_id, p, back c m refl q)
  ]

  neighbours_full :
      (fr : List String) (y x : String)
      → Linked g.connections y x
      → contains y fr ≡ true
      → contains x (neighbours fr) ≡ true
  neighbours_full fr y x (forth c m p q) h =
      let h' : contains c.source_id fr ≡ true = rw p h in
      let found : contains x (targets_of g.connections fr) ≡ true =
        rw q at (targets_of_full g.connections fr c m h') in
      ground (
        arith,
        found,
        contains-append x (targets_of g.connections fr) (sources_of g.connections fr),
      )
  neighbours_full fr y x (back c m p q) h =
      let h' : contains c.target_id fr ≡ true = rw p h in
      let found : contains x (sources_of g.connections fr) ≡ true =
        rw q at (sources_of_full g.connections fr c m h') in
      ground (
        arith,
        found,
        contains-append x (targets_of g.connections fr) (sources_of g.connections fr),
      )

  contains-next_frontier :
      (fr sel : List String) (x : String)
      → contains x (next_frontier g fr sel)
        ≡ (contains x (neighbours fr) && (is_known g x && not (contains x sel)))
  unfolding next_frontier
  contains-next_frontier fr sel x =
      contains-dedup x (filter (λ k. is_known g k && not (contains k sel)) (neighbours fr))
      ∙ contains-filter (λ k. is_known g k && not (contains k sel)) x (neighbours fr)

  module _ (focus : String) where
    -- After `n` rounds: what has been selected is what is within `n`, and only the frontier has
    -- neighbours that have not been selected.
    record Inv (n : ℕ) (fr sel : List String) : Type 0 where
      sound : (x : String) → contains x sel ≡ true → Within g focus n x
      full : (x : String) → Within g focus n x → contains x sel ≡ true
      front : (x : String) → contains x fr ≡ true → contains x sel ≡ true
      closed :
          (y x : String)
          → contains y sel ≡ true
          → contains y fr ≡ false
          → Linked g.connections y x
          → is_known g x ≡ true
          → contains x sel ≡ true

    Inv-start : Inv 0 (focus ∷ []) (focus ∷ [])
    Inv-start = record {
      sound = λ x h. at_focus x (ground (arith, h));
      full = λ x w. only_focus x w;
      front = λ x h. h;
      closed = λ y x h no. absurd (ground (arith, h, no));
    }
      where
        at_focus : (x : String) → (x == focus) ≡ true → Within g focus 0 x
        at_focus x h = rw ((eq_iff x focus).0 h) start

        only_focus : (x : String) → Within g focus 0 x → contains x (focus ∷ []) ≡ true
        only_focus x start = rw (beq_self focus) refl

    -- A neighbour is selected after the round, whether it was before or not.
    selected_next :
        (fr sel : List String) (y x : String)
        → contains y fr ≡ true
        → Linked g.connections y x
        → is_known g x ≡ true
        → contains x (sel ++ next_frontier g fr sel) ≡ true
    selected_next fr sel y x h l k = ground (
      arith,
      neighbours_full fr y x l h,
      k,
      contains-append x sel (next_frontier g fr sel),
      contains-next_frontier fr sel x,
    )

    selected_before :
        (fr sel : List String) (x : String)
        → contains x sel ≡ true
        → contains x (sel ++ next_frontier g fr sel) ≡ true
    selected_before fr sel x h = ground (arith, h, contains-append x sel (next_frontier g fr sel))

    -- What is linked to a selected entity is selected after the round.
    Linked-next :
        (n : ℕ) (fr sel : List String) (y x : String)
        → Inv n fr sel
        → contains y sel ≡ true
        → Linked g.connections y x
        → is_known g x ≡ true
        → contains x (sel ++ next_frontier g fr sel) ≡ true
    Linked-next n fr sel y x i h l k = elim (Bool-cases (contains y fr)) [
      | inl e ↦ selected_next fr sel y x e l k
      | inr e ↦ selected_before fr sel x (i.closed y x h e l k)
    ]

    sound_next :
        (n : ℕ) (fr sel : List String) (x : String)
        → Inv n fr sel
        → contains x (next_frontier g fr sel) ≡ true
        → Within g focus (suc n) x
    sound_next n fr sel x i h =
        let near : contains x (neighbours fr) ≡ true =
          ground (arith, h, contains-next_frontier fr sel x) in
        let known : is_known g x ≡ true = ground (arith, h, contains-next_frontier fr sel x) in
        let (y, m, l) = neighbours_sound fr x near in step (i.sound y (i.front y m)) l known

    Inv-next :
        (n : ℕ) (fr sel : List String)
        → Inv n fr sel
        → Inv (suc n) (next_frontier g fr sel) (sel ++ next_frontier g fr sel)
    Inv-next n fr sel i = record {
      sound = λ x h. elim (Bool-cases (contains x sel)) [
        | inl e ↦ weaken g focus (i.sound x e)
        | inr e ↦
            sound_next n fr sel x i
              (ground (arith, h, e, contains-append x sel (next_frontier g fr sel)))
      ];
      full = λ x w. full_next x w;
      front = λ x h. ground (arith, h, contains-append x sel (next_frontier g fr sel));
      closed = λ y x h no l k.
          Linked-next n fr sel y x i
            (ground (arith, h, no, contains-append y sel (next_frontier g fr sel))) l k;
    }
      where
        full_next :
            (x : String)
            → Within g focus (suc n) x
            → contains x (sel ++ next_frontier g fr sel) ≡ true
        full_next x start = selected_before fr sel focus (i.full focus start)
        full_next x (step {n} {y} w l k) = Linked-next n fr sel y x i (i.full y w) l k

    Inv-expand :
        (k n m : ℕ) (fr sel : List String)
        → k + n ≡ m
        → Inv n fr sel
        → (x : String) → (contains x (expand g k fr sel) ≡ true) ↔ Within g focus m x
    unfolding expand
    Inv-expand zero n m fr sel e i x =
        let j : Inv m fr sel = subst (λ k. Inv k fr sel) (omega (arith, e)) i in
        (j.sound x, j.full x)
    Inv-expand (suc k) n m fr sel e i x =
        Inv-expand k (suc n) m (next_frontier g fr sel) (sel ++ next_frontier g fr sel)
          (omega (arith, e)) (Inv-next n fr sel i) x

    pub expand-Within :
        (depth : ℕ) (x : String)
        → (contains x (expand g depth (focus ∷ []) (focus ∷ [])) ≡ true) ↔ Within g focus depth x
    expand-Within depth x =
        Inv-expand depth 0 depth (focus ∷ []) (focus ∷ []) (omega arith) Inv-start x

  distinct-next_frontier : (fr sel : List String) → distinct (next_frontier g fr sel) ≡ true
  unfolding next_frontier
  distinct-next_frontier fr sel =
      distinct-dedup (filter (λ k. is_known g k && not (contains k sel)) (neighbours fr))

  distinct-next :
      (fr sel : List String) → distinct sel ≡ true → distinct (sel ++ next_frontier g fr sel) ≡ true
  distinct-next fr sel h =
      distinct-append sel (next_frontier g fr sel) h (distinct-next_frontier fr sel)
        (λ a m. ground (arith, m, contains-next_frontier fr sel a))

  pub distinct-expand :
      (k : ℕ) (fr sel : List String) → distinct sel ≡ true → distinct (expand g k fr sel) ≡ true
  unfolding expand
  distinct-expand zero fr sel h = h
  distinct-expand (suc k) fr sel h =
      distinct-expand k (next_frontier g fr sel) (sel ++ next_frontier g fr sel)
        (distinct-next fr sel h)
