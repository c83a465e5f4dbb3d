-- ===== src/Prelude/Dict.antt =====
-- Python's `dict` with text keys: the entries in the order of insertion. A write to a key that is
-- there keeps its place.
use Prim.Native.String.{String}
use mathlib.Core.Path.{◌≡◌, refl, subst, ◌∙◌}
use mathlib.Core.Option.{Option, none, some}
use mathlib.Core.List.{List, [], ◌∷◌, map}
use native.Mathlib.Omega.{arith}
use text.Mathlib.TextEquality.{eq_iff}
use container_platform.Prelude.Tests.{str_eq, Bool-cases, if◌then◌else◌}
use mathlib.Core.Logic.{inl, inr}
use container_platform.Prelude.Lists.{All}

abbrev pub Dict {ℓ} : Type ℓ → Type ℓ
Dict V = List (String × V)

module _ {ℓ} {V : Type ℓ} where
  -- d.get(k)
  unfoldable pub lookup : String → Dict V → Option V
  lookup k [] = none
  lookup k ((j, v) ∷ d) = if str_eq j k then some v else lookup k d

  -- d[k] = v
  unfoldable pub insert : String → V → Dict V → Dict V
  insert k v [] = (k, v) ∷ []
  insert k v ((j, w) ∷ d) = if str_eq j k then (j, v) ∷ d else (j, w) ∷ insert k v d

  -- d.pop(k, None)
  unfoldable pub remove : String → Dict V → Dict V
  remove k [] = []
  remove k ((j, w) ∷ d) = let rest = remove k d in if str_eq j k then rest else (j, w) ∷ rest

  -- d.values()
  unfoldable pub values : Dict V → List V
  values d = map (λ e. e.1) d

  pub lookup-insert :
      (k j : String) (v : V) (d : Dict V)
      → lookup j (insert k v d) ≡ (if str_eq k j then some v else lookup j d)
  unfolding lookup insert
  lookup-insert k j v [] = refl
  lookup-insert k j v ((i, w) ∷ d) =
      ground (arith, eq_iff k j, eq_iff i k, eq_iff i j, lookup-insert k j v d)

  pub lookup-remove :
      (k j : String) (d : Dict V)
      → lookup j (remove k d) ≡ (if str_eq k j then none else lookup j d)
  unfolding lookup remove
  lookup-remove k j [] = ground arith
  lookup-remove k j ((i, w) ∷ d) =
      ground (arith, eq_iff i k, eq_iff i j, eq_iff k j, lookup-remove k j d)

  -- A property of all entries, kept by the operations and had by what is found.
  abbrev pub AllEntries {κ} : (String → V → Type κ) → Dict V → Type κ
  AllEntries P d = All (λ e. P e.0 e.1) d

module _ {ℓ κ} {V : Type ℓ} (P : String → V → Type κ) where
  pub AllEntries-insert :
      (k : String) (v : V) (d : Dict V) → P k v → AllEntries P d → AllEntries P (insert k v d)
  unfolding insert
  AllEntries-insert k v [] p h = (p, tt)
  AllEntries-insert k v ((j, w) ∷ d) p h = elim (Bool-cases (str_eq j k)) [
    | inl same ↦ rw same (rw ((eq_iff j k).0 same) p, h.1)
    | inr other ↦ rw other (h.0, AllEntries-insert k v d p h.1)
  ]

  pub AllEntries-remove : (k : String) (d : Dict V) → AllEntries P d → AllEntries P (remove k d)
  unfolding remove
  AllEntries-remove k [] h = h
  AllEntries-remove k ((j, w) ∷ d) h = elim (Bool-cases (str_eq j k)) [
    | inl same ↦ rw same (AllEntries-remove k d h.1)
    | inr other ↦ rw other (h.0, AllEntries-remove k d h.1)
  ]

  pub lookup-AllEntries :
      (k : String) (d : Dict V) {v : V} → lookup k d ≡ some v → AllEntries P d → P k v
  unfolding lookup
  lookup-AllEntries k [] e h = cc
  lookup-AllEntries k ((j, w) ∷ d) {v} e h = elim (Bool-cases (str_eq j k)) [
    | inl same ↦
        let q : w ≡ v = ground arith in subst (P k) q (subst (λ i. P i w) ((eq_iff j k).0 same) h.0)
    | inr other ↦ lookup-AllEntries k d (rw other at e) h.1
  ]

module _ {ℓ} {V : Type ℓ} where
  pub remove-remove : (k : String) (d : Dict V) → remove k (remove k d) ≡ remove k d
  unfolding remove
  remove-remove k [] = refl
  remove-remove k ((j, w) ∷ d) = elim (Bool-cases (str_eq j k)) [
    | inl same ↦ rw same (remove-remove k d)
    | inr other ↦ rw (other, other, remove-remove k d) refl
  ]

  pub remove-insert : (k : String) (v : V) (d : Dict V) → remove k (insert k v d) ≡ remove k d
  unfolding insert remove
  remove-insert k v [] = rw ((eq_iff k k).1 refl) refl
  remove-insert k v ((j, w) ∷ d) = elim (Bool-cases (str_eq j k)) [
    | inl same ↦ rw (same, same) refl
    | inr other ↦ rw (other, other, remove-insert k v d) refl
  ]

  pub lookup-insert_own : (k : String) (v : V) (d : Dict V) → lookup k (insert k v d) ≡ some v
  lookup-insert_own k v d = lookup-insert k k v d ∙ rw ((eq_iff k k).1 refl) refl
