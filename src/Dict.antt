-- ===== src/Dict.antt =====
-- Python's `dict` with text keys, in insertion order: an assignment to a present key keeps its place.
use devops_agent.Prelude.{
  ◌≡◌, refl, false, Option, none, some, List, [], ◌∷◌, if◌then◌else◌, arith, Bool-cases, inl, inr,
}
use devops_agent.Text.{Text, text_eq, text_eq→eq, text_eq_refl}

abbrev pub Dict {ℓ} : Type ℓ → Type ℓ
Dict V = List (Text × V)

module _ {ℓ} {V : Type ℓ} where
  -- `d.get(key)`
  unfoldable pub lookup : Text → Dict V → Option V
  lookup k [] = none
  lookup k ((j, v) ∷ d) = if text_eq j k then some v else lookup k d

  -- `d[key] = v`
  unfoldable pub insert : Text → V → Dict V → Dict V
  insert k v [] = (k, v) ∷ []
  insert k v ((j, w) ∷ d) = if text_eq j k then (j, v) ∷ d else (j, w) ∷ insert k v d

  -- `d.pop(key, None)`
  unfoldable pub remove : Text → Dict V → Dict V
  remove k [] = []
  remove k ((j, w) ∷ d) = let rest = remove k d in if text_eq j k then rest else (j, w) ∷ rest

  pub lookup-insert_self : (k : Text) (v : V) (d : Dict V) → lookup k (insert k v d) ≡ some v
  unfolding lookup insert
  lookup-insert_self k v [] = rw (text_eq_refl k)
  lookup-insert_self k v ((j, w) ∷ d) = elim (Bool-cases (text_eq j k)) [
    | inl same ↦ rw (same, same)
    | inr other ↦ rw (other, other) (lookup-insert_self k v d)
  ]

  pub lookup-insert_other :
      (k j : Text) (v : V) (d : Dict V) → text_eq k j ≡ false → lookup j (insert k v d) ≡ lookup j d
  unfolding lookup insert
  lookup-insert_other k j v [] ne = rw ne
  lookup-insert_other k j v ((i, w) ∷ d) ne = elim (Bool-cases (text_eq i k)) [
    | inl same ↦ rw (same, text_eq→eq i k same, ne)
    | inr other ↦ rw other (ground (arith, lookup-insert_other k j v d ne))
  ]

  pub lookup-remove_self : (k : Text) (d : Dict V) → lookup k (remove k d) ≡ none
  unfolding lookup remove
  lookup-remove_self k [] = refl
  lookup-remove_self k ((j, w) ∷ d) = elim (Bool-cases (text_eq j k)) [
    | inl same ↦ rw same (lookup-remove_self k d)
    | inr other ↦ rw (other, other) (lookup-remove_self k d)
  ]
