-- ===== src/Upgrade/Plan.antt =====
-- The plan and the copy loop: what a complete run leaves, and that the new lock lets it pass.
use warden_drydock.Prelude.{
  String, ◌≡◌, refl, ◌∙◌, Option, none, some, List, [], ◌∷◌, arith, inl, inr, Mem, All, All-Mem,
  Mem_or_not, string_eq, option_eq, list_eq, Option-cases, ap, sym, ◌⊎◌, Bool, Bool-cases, ◌++◌,
  Mem-append_left,
}
use text.Mathlib.TextEquality.{eq_iff}
use warden_drydock.Prelude.Dict.{Dict, lookup}
use warden_drydock.Upgrade.{
  Tree, LockEntry, LockRecord, Desired, recorded, hash_at, plan, Copied, complete, stopped,
  copy_one, and_then, copy_all, update, Verdict, skip, change, conflict, classify, push, verdict,
  written_files,
}
use warden_drydock.Upgrade.Copies.{metadata_paths, copy_all-Others}

-- The prepared directory as `_write_lock` leaves it: every entry of its lock has the hash of the
-- file that it names.
abbrev pub IsPrepared : (String → String) → Desired → Type 0
IsPrepared sha256 d =
    All (λ (f : String × LockRecord). hash_at sha256 d.tree f.0 ≡ some f.1.sha256) d.files

skip_of_same :
    (current : Option String) (desired : String) (old : Option String)
    → current ≡ some desired
    → classify current desired old ≡ skip
unfolding classify
skip_of_same current desired old e = ground (arith, eq_iff desired desired)

-- Where the first run neither changes nor refuses a file, the new lock lets it pass as well.
skip_again :
    (current : Option String) (desired : String) (old : Option String)
    → classify current desired old ≡ skip
    → classify current desired (some desired) ≡ skip
unfolding classify
skip_again none desired none e = cc
skip_again none desired (some y) e = ground (arith, eq_iff desired desired)
skip_again (some x) desired none e = ground (arith, eq_iff x desired)
skip_again (some x) desired (some y) e =
    ground (arith, eq_iff x desired, eq_iff y desired, eq_iff x y, eq_iff desired desired)

push-unlisted :
    (v : Verdict) (q p : String) (a : List String × List String)
    → ¬ Mem p (push v q a).0
    → (push v q a).1 ≡ []
    → (p ≡ q → v ≡ skip) × (¬ Mem p a.0) × (a.1 ≡ [])
unfolding push
push-unlisted skip q p a n c = ((λ e. refl), n, c)
push-unlisted change q p a n c = ((λ e. absurd (n (inl e))), (λ m. n (inr m)), c)
push-unlisted conflict q p a n c = cc

module _ (refuses : Tree → String → Bool) (source : Tree) where
  copy_one-complete :
      (q : String) (t u : Tree)
      → copy_one refuses source q t ≡ (complete, u)
      → (text : String) × (source q ≡ some text) × (u ≡ update t q (some text))
  unfolding copy_one
  copy_one-complete q t u e = elim (Bool-cases (refuses t q)) [
    | inl raises ↦ absurd (cc (rw raises at e))
    | inr goes ↦ elim (Option-cases (source q)) [
      | inl missing ↦ absurd (cc (rw (goes, missing, copy_one) at e))
      | inr (text, found) ↦
          (text, found, sym (ap (λ (x : Copied × Tree). x.1) (rw (goes, found, copy_one) at e)))
    ]
  ]

  update-Holds :
      (t : Tree) (q p text : String)
      → source q ≡ some text
      → (q ≡ p) ⊎ (t p ≡ source p)
      → update t q (some text) p ≡ source p
  unfolding update
  update-Holds t q p text found (inl same) = ground (arith, eq_iff q p, found, same)
  update-Holds t q p text found (inr held) = ground (arith, eq_iff q p, found, held)

  -- After a complete copy each path that is listed, or that held it before, holds what the source holds.
  copy_all-Holds :
      (ps : List String) (t u : Tree) (p : String)
      → copy_all refuses source ps t ≡ (complete, u)
      → Mem p ps ⊎ (t p ≡ source p)
      → u p ≡ source p
  unfolding copy_all and_then
  copy_all-Holds [] t u p e (inl m) = absurd m
  copy_all-Holds [] t u p e (inr held) = ap (λ (x : Copied × Tree). x.1 p) (sym e) ∙ held
  copy_all-Holds (q ∷ ps) t u p e h =
      next (copy_one refuses source q t) (copy_one-complete q t) e (copy_all-Holds ps)
    where
      next :
          (x : Copied × Tree)
          → ((v : Tree)
              → x ≡ (complete, v)
              → (text : String) × (source q ≡ some text) × (v ≡ update t q (some text)))
          → and_then x (copy_all refuses source ps) ≡ (complete, u)
          → ((v w : Tree) (a : String)
              → copy_all refuses source ps v ≡ (complete, w)
              → Mem a ps ⊎ (v a ≡ source a)
              → w a ≡ source a)
          → u p ≡ source p
      next (stopped f, v) made k rest = absurd (cc (k))
      next (complete, v) made k rest =
          let (text, found, is) = made v refl in
          let at = λ (own : (q ≡ p) ⊎ (t p ≡ source p)).
            ap (λ (w : Tree). w p) is ∙ update-Holds t q p text found own in
          rest v u p k (elim h [
            | inl (inl same) ↦ inr (at (inl (sym same)))
            | inl (inr m) ↦ inl m
            | inr held ↦ inr (at (inr held))
          ])

module _ (sha256 : String → String) where
  -- The new lock gives back the hash that the desired lock has for the file.
  recorded-written :
      (d : Tree) (files : Dict String LockRecord) (p h : String)
      → All (λ (f : String × LockRecord). hash_at sha256 d f.0 ≡ some f.1.sha256) files
      → hash_at sha256 d p ≡ some h
      → (r : LockRecord) → Mem (p, r) files
      → recorded (lookup p (written_files files)) ≡ some h
  unfolding written_files lookup recorded
  recorded-written d [] p h a e r m = absurd m
  recorded-written d ((q, s) ∷ files) p h a e r (inl same) = ground (arith, eq_iff q p)
  recorded-written d ((q, s) ∷ files) p h a e r (inr m) =
      ground (arith, eq_iff q p, recorded-written d files p h a.1 e r m)

  pub plan_all_skip :
      (t : Tree) (old : Dict String LockEntry) (files : Dict String LockRecord)
      → ((p : String) (r : LockRecord) → Mem (p, r) files → verdict sha256 t old p r ≡ skip)
      → plan sha256 t old files ≡ ([], [])
  unfolding plan push
  plan_all_skip t old [] h = refl
  plan_all_skip t old ((p, r) ∷ files) h =
      rw (h p r (inl refl), push) (plan_all_skip t old files (λ q s m. h q s (inr m)))

  -- A file of the desired lock that is neither listed as a change nor as a conflict is passed over.
  unlisted-skip :
      (t : Tree) (old : Dict String LockEntry) (files : Dict String LockRecord) (p : String)
      (r : LockRecord)
      → Mem (p, r) files
      → ¬ Mem p (plan sha256 t old files).0
      → (plan sha256 t old files).1 ≡ []
      → verdict sha256 t old p r ≡ skip
  unfolding plan push
  unlisted-skip t old [] p r m n c = absurd m
  unlisted-skip t old ((q, s) ∷ files) p r m n c =
      let (head, n', c') =
        push-unlisted (verdict sha256 t old q s) q p (plan sha256 t old files) n c in
      elim m [
        | inl e ↦
            rw (ap (λ (x : String × LockRecord). x.0) e, ap (λ (x : String × LockRecord). x.1) e)
              (head (ap (λ (x : String × LockRecord). x.0) e))
        | inr m' ↦ unlisted-skip t old files p r m' n' c'
      ]

  verdict-skip_same :
      (t : Tree) (old : Dict String LockEntry) (p : String) (r : LockRecord)
      → hash_at sha256 t p ≡ some r.sha256
      → verdict sha256 t old p r ≡ skip
  unfolding verdict
  verdict-skip_same t old p r e =
      ground (arith, skip_of_same (hash_at sha256 t p) r.sha256 (recorded (lookup p old)) e)

  verdict-skip_again :
      (t t' : Tree) (old old' : Dict String LockEntry) (p : String) (r : LockRecord)
      → hash_at sha256 t' p ≡ hash_at sha256 t p
      → recorded (lookup p old') ≡ some r.sha256
      → verdict sha256 t old p r ≡ skip
      → verdict sha256 t' old' p r ≡ skip
  unfolding verdict
  verdict-skip_again t t' old old' p r same new e =
      rw (same, new)
        (ground (arith, skip_again (hash_at sha256 t p) r.sha256 (recorded (lookup p old))))

  hash_at-congr : (t t' : Tree) (p : String) → t p ≡ t' p → hash_at sha256 t p ≡ hash_at sha256 t' p
  unfolding hash_at
  hash_at-congr t t' p e = rw (e, hash_at)

  -- The files that a complete run leaves are passed over by the comparison with the new lock.
  pub verdict-again :
      (refuses : Tree → String → Bool) (t u : Tree) (old : Dict String LockEntry) (d : Desired)
      → IsPrepared sha256 d
      → (plan sha256 t old d.files).1 ≡ []
      → copy_all refuses d.tree ((plan sha256 t old d.files).0 ++ metadata_paths) t ≡ (complete, u)
      → (p : String) (r : LockRecord) → Mem (p, r) d.files
      → verdict sha256 u (written_files d.files) p r ≡ skip
  verdict-again refuses t u old d ready clear done p r m =
      let hashed : hash_at sha256 d.tree p ≡ some r.sha256 =
        All-Mem (λ (f : String × LockRecord). hash_at sha256 d.tree f.0 ≡ some f.1.sha256) (p, r)
          d.files ready m in
      let changes = (plan sha256 t old d.files).0 in
      let copies = copy_all-Holds refuses d.tree (changes ++ metadata_paths) t u p done in
      elim (Mem_or_not p changes) [
        | inl listed ↦ verdict-skip_same _ _ p r (
            hash_at-congr _ d.tree p
              (copies (inl (Mem-append_left p changes metadata_paths listed)))
            ∙ hashed)
        | inr unlisted ↦ elim (copy_all-Others refuses d.tree (changes ++ metadata_paths) t p) [
          | inl listed ↦
              verdict-skip_same _ _ p r (hash_at-congr _ d.tree p (copies (inl listed)) ∙ hashed)
          | inr same ↦
              verdict-skip_again t _ old _ p r
                (hash_at-congr _ t p (ap (λ (x : Copied × Tree). x.1 p) (sym done) ∙ same))
                (recorded-written d.tree d.files p r.sha256 ready hashed r m)
                (unlisted-skip t old d.files p r m unlisted clear)
        ]
      ]
