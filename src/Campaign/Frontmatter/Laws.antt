-- ===== src/Campaign/Frontmatter/Laws.antt =====
-- The head of a record: which of its values are texts.
use package.text.Mathlib.TextEquality.{eq_iff}
use warden_drydock.Prelude.{
  String, ◌≡◌, refl, ◌∙◌, ap, true, List, [], ◌∷◌, Option, none, some, ◌⊎◌, inl, inr, ◌==◌, ◌&&◌,
  string_eq, Bool-cases,
}
use warden_drydock.Prelude.Dict.{Dict, lookup, insert, lookup-insert}
use warden_drydock.Campaign.Text.{starts_with, ends_with, cut, split_lines, normalize_newlines}
use warden_drydock.Campaign.Json.{Json, null, boolean, number, text, array, object}
use warden_drydock.Campaign.Frontmatter.{
  is_string_key, quoted, frontmatter_scalar, put_field, fields, key_of, value_of, split_head,
  frontmatter, head_fields,
}

-- A value is missing or is a text.
abbrev pub IsTextual : Option Json → Type 0
IsTextual v = (v ≡ none) ⊎ ((s : String) × (v ≡ some (text s)))

quoted_text : (value : String) (found : Option Json) → (s : String) × (quoted value found ≡ text s)
unfolding quoted
quoted_text value none = (_, refl)
quoted_text value (some null) = (_, refl)
quoted_text value (some (boolean b)) = (_, refl)
quoted_text value (some (number n)) = (_, refl)
quoted_text value (some (text s)) = (s, refl)
quoted_text value (some (array js)) = (_, refl)
quoted_text value (some (object ms)) = (_, refl)

module _ (loads : String → Option Json) (k : String) (string_key : is_string_key k ≡ true) where
  scalar_text : (value : String) → (s : String) × (frontmatter_scalar loads value k ≡ text s)
  unfolding frontmatter_scalar
  scalar_text value = elim (Bool-cases (starts_with "\"" value && ends_with b'"' value)) [
    | inl e ↦ rw e (quoted_text value (loads value))
    | inr e ↦ rw (e, string_key) (value, refl)
  ]

  IsTextual-insert :
      (j : String) (v : Json) (d : Dict String Json)
      → (j ≡ k → (s : String) × (v ≡ text s))
      → IsTextual (lookup k d)
      → IsTextual (lookup k (insert j v d))
  IsTextual-insert j v d own h = elim (Bool-cases (j == k)) [
    | inl same ↦
        let (s, e) = own ((eq_iff j k).0 same) in
        inr (s, lookup-insert j k v d ∙ rw same (ap some e))
    | inr other ↦ rw (lookup-insert j k v d, other) h
  ]

  IsTextual-put_field :
      (parts : Option (String × String)) (d : Dict String Json)
      → IsTextual (lookup k d)
      → IsTextual (lookup k (put_field loads parts d))
  unfolding put_field
  IsTextual-put_field none d h = h
  IsTextual-put_field (some parts) d h =
      IsTextual-insert (key_of parts) (frontmatter_scalar loads (value_of parts) (key_of parts)) d
        (λ at. rw at (scalar_text (value_of parts))) h

  IsTextual-fields :
      (lines : List String) (d : Dict String Json)
      → IsTextual (lookup k d)
      → IsTextual (lookup k (fields loads lines d))
  unfolding fields
  IsTextual-fields [] d h = h
  IsTextual-fields (line ∷ rest) d h = elim (Bool-cases (starts_with " " line)) [
    | inl e ↦ rw e (IsTextual-fields rest d h)
    | inr e ↦ rw e (
        IsTextual-fields rest (put_field loads (cut ":" line) d)
          (IsTextual-put_field (cut ":" line) d h))
  ]

  IsTextual-head :
      (found : Option (String × String)) → IsTextual (lookup k (head_fields loads found))
  unfolding head_fields lookup
  IsTextual-head none = inl refl
  IsTextual-head (some (head, rest)) = IsTextual-fields (split_lines head) [] (inl refl)

  -- The value of each key that the source reads as a text is a text where it is there, whatever `loads`
  -- makes of the spelling.
  pub frontmatter-IsTextual : (s : String) → IsTextual (lookup k (frontmatter loads s))
  unfolding frontmatter
  frontmatter-IsTextual s = IsTextual-head (split_head (normalize_newlines s))
