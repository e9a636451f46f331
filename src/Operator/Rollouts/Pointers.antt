-- ===== src/Operator/Rollouts/Pointers.antt =====
-- internal/operator/progressive/manager.go: the heap of records and the maps of pointers into it.
use summer_project.Prelude.{
  ℕ, zero, suc, length, ◌≡◌, ◌≢◌, refl, sym, ap, ◌∙◌, ◌⊎◌, inl, inr, none, some, List, [], ◌∷◌,
  ◌++◌, String, Bool-cases,
}
use summer_project.Prelude.Text.{str_eq, eq_iff}
use summer_project.Prelude.Maps.{Map, lookup, insert, delete, lookup-insert, lookup-delete}
use summer_project.Operator.Rollouts.{get_elem?, set}

module _ {ℓ} {A : Type ℓ} where
  pub get_elem?-append :
      (xs ys : List A) (i : ℕ) (v : A) → get_elem? xs i ≡ some v → get_elem? (xs ++ ys) i ≡ some v
  get_elem?-append [] ys i v h = cc h
  get_elem?-append (x ∷ xs) ys zero v h = h
  get_elem?-append (x ∷ xs) ys (suc i) v h = get_elem?-append xs ys i v h

  pub get_elem?-last : (xs : List A) (v : A) → get_elem? (xs ++ v ∷ []) (length xs) ≡ some v
  get_elem?-last [] v = refl
  get_elem?-last (x ∷ xs) v = get_elem?-last xs v

  pub get_elem?-length : (xs : List A) → get_elem? xs (length xs) ≡ none
  get_elem?-length [] = refl
  get_elem?-length (x ∷ xs) = get_elem?-length xs

  pub get_elem?-set_ne :
      (xs : List A) (i j : ℕ) (v : A) → i ≢ j → get_elem? (set xs i v) j ≡ get_elem? xs j
  get_elem?-set_ne [] i j v h = refl
  get_elem?-set_ne (x ∷ xs) zero zero v h = absurd (h refl)
  get_elem?-set_ne (x ∷ xs) zero (suc j) v h = refl
  get_elem?-set_ne (x ∷ xs) (suc i) zero v h = refl
  get_elem?-set_ne (x ∷ xs) (suc i) (suc j) v h = get_elem?-set_ne xs i j v (λ e. h (ap suc e))

  pub get_elem?-set_self :
      (xs : List A) (i : ℕ) (u v : A) → get_elem? xs i ≡ some u → get_elem? (set xs i v) i ≡ some v
  get_elem?-set_self [] i u v h = cc h
  get_elem?-set_self (x ∷ xs) zero u v h = refl
  get_elem?-set_self (x ∷ xs) (suc i) u v h = get_elem?-set_self xs i u v h

pub was_active :
    (k l : String) (at : ℕ) (m : Map ℕ)
    → lookup l (delete k m) ≡ some at
    → (lookup l m ≡ some at) × (k ≢ l)
was_active k l at m e = elim (Bool-cases (str_eq k l)) [
  | inl same ↦ absurd (cc (rw same at (sym (lookup-delete k l m) ∙ e)))
  | inr other ↦ (rw other at (sym (lookup-delete k l m) ∙ e), λ q. cc (other, (eq_iff k l).1 q))
]

-- An entry of a map after an insertion is the new one or an old one.
pub after_insert :
    (k l : String) (new at : ℕ) (m : Map ℕ)
    → lookup l (insert k new m) ≡ some at
    → ((k ≡ l) × (new ≡ at)) ⊎ (lookup l m ≡ some at)
after_insert k l new at m e = elim (Bool-cases (str_eq k l)) [
  | inl same ↦ inl ((eq_iff k l).0 same, cc (rw same at (sym (lookup-insert k l new m) ∙ e)))
  | inr other ↦ inr (rw other at (sym (lookup-insert k l new m) ∙ e))
]
