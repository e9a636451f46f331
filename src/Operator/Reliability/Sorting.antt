-- ===== src/Operator/Reliability/Sorting.antt =====
-- internal/operator/reliability/engine.go: the exchange sort of the incidents by their start.
use summer_project.Prelude.{
  ℕ, zero, suc, ◌≤◌, ◌≡◌, refl, inl, inr, List, [], ◌∷◌, arith, length, All, Bool-cases,
}
use summer_project.Prelude.Int.{◌≤ℤ◌, ltb_ℤ}
use summer_project.Operator.Models.{Incident}
use summer_project.Operator.Reliability.{exchanged, sweep, exchange_sort, sorted_by_start}
use mathlib.Core.List.{Perm}
use mathlib.Core.List.Perm

abbrev pub Before : Incident → Incident → Type 0
Before x y = x.start_time ≤ℤ y.start_time

abbrev pub IsSorted : List Incident → Type 0
IsSorted [] = Unit
IsSorted (x ∷ xs) = All (Before x) xs × IsSorted xs

exchanged-All :
    (P : Incident → Type 0) (x y : Incident) → P x → P y → P (exchanged x y).0 × P (exchanged x y).1
exchanged-All P x y p q = elim (Bool-cases (ltb_ℤ y.start_time x.start_time)) [
  | inl less ↦ rw less (q, p)
  | inr not_less ↦ rw not_less (p, q)
]

exchanged-Before :
    (x y : Incident) → Before (exchanged x y).0 x × Before (exchanged x y).0 (exchanged x y).1
exchanged-Before x y = elim (Bool-cases (ltb_ℤ y.start_time x.start_time)) [
  | inl less ↦ rw less (ground (arith, less), ground (arith, less))
  | inr not_less ↦ rw not_less (omega arith, ground (arith, not_less))
]

exchanged-perm :
    (x y : Incident) (ys : List Incident)
    → Perm ((exchanged x y).1 ∷ (exchanged x y).0 ∷ ys) (x ∷ y ∷ ys)
exchanged-perm x y ys = elim (Bool-cases (ltb_ℤ y.start_time x.start_time)) [
  | inl less ↦ rw less Perm.rfl
  | inr not_less ↦ rw not_less (Perm.swap x y ys)
]

sweep-All :
    (P : Incident → Type 0) (x : Incident) (xs : List Incident)
    → P x
    → All P xs
    → P (sweep x xs).0 × All P (sweep x xs).1
unfolding sweep
sweep-All P x [] p ps = (p, tt)
sweep-All P x (y ∷ ys) p (q, ps) =
    let (low, high) = exchanged-All P x y p q in
    let (least, rest) = sweep-All P (exchanged x y).0 ys low ps in (least, (high, rest))

sweep-Before :
    (x : Incident) (xs : List Incident)
    → Before (sweep x xs).0 x × All (Before (sweep x xs).0) (sweep x xs).1
unfolding sweep
sweep-Before x [] = (omega arith, tt)
sweep-Before x (y ∷ ys) =
    let (first, second) = exchanged-Before x y in
    let (least, rest) = sweep-Before (exchanged x y).0 ys in
    (omega (arith, first, least), (omega (arith, second, least), rest))

sweep-perm : (x : Incident) (xs : List Incident) → Perm ((sweep x xs).0 ∷ (sweep x xs).1) (x ∷ xs)
unfolding sweep
sweep-perm x [] = Perm.rfl
sweep-perm x (y ∷ ys) =
    Perm.trans (Perm.swap _ _ _)
      (Perm.trans (Perm.cons _ (sweep-perm (exchanged x y).0 ys)) (exchanged-perm x y ys))

length-sweep : (x : Incident) (xs : List Incident) → length (sweep x xs).1 ≡ length xs
unfolding sweep
length-sweep x [] = refl
length-sweep x (y ∷ ys) = omega (arith, length-sweep (exchanged x y).0 ys)

exchange_sort-All :
    (P : Incident → Type 0) (n : ℕ) (xs : List Incident) → All P xs → All P (exchange_sort n xs)
unfolding exchange_sort
exchange_sort-All P zero xs ps = ps
exchange_sort-All P (suc n) [] ps = tt
exchange_sort-All P (suc n) (x ∷ xs) (p, ps) =
    let (least, rest) = sweep-All P x xs p ps in (least, exchange_sort-All P n (sweep x xs).1 rest)

exchange_sort-IsSorted :
    (n : ℕ) (xs : List Incident) → length xs ≤ n → IsSorted (exchange_sort n xs)
unfolding exchange_sort
exchange_sort-IsSorted zero [] h = tt
exchange_sort-IsSorted zero (x ∷ xs) h = absurd (omega (arith, h))
exchange_sort-IsSorted (suc n) [] h = tt
exchange_sort-IsSorted (suc n) (x ∷ xs) h = (
  exchange_sort-All (Before (sweep x xs).0) n (sweep x xs).1 (sweep-Before x xs).1,
  exchange_sort-IsSorted n (sweep x xs).1 (omega (arith, length-sweep x xs, h)),
)

exchange_sort-perm : (n : ℕ) (xs : List Incident) → Perm (exchange_sort n xs) xs
unfolding exchange_sort
exchange_sort-perm zero xs = Perm.rfl
exchange_sort-perm (suc n) [] = Perm.rfl
exchange_sort-perm (suc n) (x ∷ xs) =
    Perm.trans (Perm.cons _ (exchange_sort-perm n (sweep x xs).1)) (sweep-perm x xs)

pub sorted_by_start-IsSorted : (xs : List Incident) → IsSorted (sorted_by_start xs)
sorted_by_start-IsSorted xs = exchange_sort-IsSorted (length xs) xs (omega arith)

pub sorted_by_start-perm : (xs : List Incident) → Perm (sorted_by_start xs) xs
sorted_by_start-perm xs = exchange_sort-perm (length xs) xs
