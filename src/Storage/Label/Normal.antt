-- ===== src/Storage/Label/Normal.antt =====
-- storage/store.go, `normalizeLabel`: what a normalized label is.
use sqliteproxy.Base.{
  ◌≡◌, refl, sym, ap, ◌∙◌, ◌≤◌, ◌<◌, ◌⊎◌, inl, inr, true, false, [], ◌∷◌, Text, trim_space,
  trim_space_twice, length, ltb, arith, Bool-cases,
}
use sqliteproxy.Errors.{is_invalid_label}
use sqliteproxy.Effect.{Result, ok, err}
use sqliteproxy.Storage.Label.{check_label, normalize_label, has_control, max_label_len}

-- What `normalizeLabel` makes of a label.
abbrev pub IsNormalized : Text → Result Text → Type 0
IsNormalized label (ok t) =
    (t ≡ trim_space label)
    × (length t ≤ max_label_len)
    × (has_control t ≡ false)
    × (normalize_label t ≡ ok t)
IsNormalized label (err e) =
    (is_invalid_label e ≡ true)
    × ((max_label_len < length (trim_space label)) ⊎ (has_control (trim_space label) ≡ true))

checked :
    (label t : Text) → t ≡ trim_space label → trim_space t ≡ t → IsNormalized label (check_label t)
unfolding check_label normalize_label
checked label [] e same = (e, omega arith, unfold has_control in refl, refl)
checked label (c ∷ s) e same =
    let long = length (c ∷ s) in
    elim (Bool-cases (ltb max_label_len long)) [
      | inl h ↦ rw (h, check_label) (refl, inl (ground (arith, ap length e)))
      | inr h ↦ elim (Bool-cases (has_control (c ∷ s))) [
        | inl k ↦ rw (h, k, check_label) (refl, inr (ap has_control (sym e) ∙ k))
        | inr k ↦
            rw (h, k, check_label)
              (e, ground arith, k, rw (same, h, k, normalize_label, check_label) refl)
      ]
    ]

-- A label that is accepted is the trimmed text, of at most 128 bytes and with no control character,
-- and it is accepted again unchanged; a label is refused as invalid, and then its trimmed text is
-- longer than that or has a control character.
pub normalize_label-IsNormalized : (label : Text) → IsNormalized label (normalize_label label)
unfolding normalize_label
normalize_label-IsNormalized label = checked label (trim_space label) refl (trim_space_twice label)
