-- ===== src/Transfers/Sorted.antt =====
-- `sorted`: the ids in ascending order, whatever order they come in.
use mathlib.Core.HLevel.{hedberg}
use mathlib.Core.List.{Perm, Permᴰ, List-discrete}
use mathlib.Core.List.Permᴰ as PermFacts
use mathlib.Core.Logic.{∥∥₁_elim}
use native.Mathlib.Decide.{ℕ_discrete}
use chekin_interview.Base.{
  ℕ, ◌≤◌, ◌≡◌, refl, ◌∙◌, ◌⊎◌, inl, inr, List, [], ◌∷◌, arith, leb, Bool-cases,
}
use chekin_interview.Transfers.{insert_sorted, sorted}

abbrev pub Listed : ℕ → List ℕ → Type 0
Listed i [] = ⊥
Listed i (x ∷ xs) = (i ≡ x) ⊎ Listed i xs

Listed-insert_sorted_self : (i : ℕ) (xs : List ℕ) → Listed i (insert_sorted i xs)
unfolding insert_sorted
Listed-insert_sorted_self i [] = inl refl
Listed-insert_sorted_self i (y ∷ ys) = elim (Bool-cases (leb i y)) [
  | inl p ↦ rw p (inl refl)
  | inr p ↦ rw p (inr (Listed-insert_sorted_self i ys))
]

Listed-insert_sorted : (i x : ℕ) (xs : List ℕ) → Listed i xs → Listed i (insert_sorted x xs)
unfolding insert_sorted
Listed-insert_sorted i x [] h = elim h [ ]
Listed-insert_sorted i x (y ∷ ys) h = elim (Bool-cases (leb x y)) [
  | inl p ↦ rw p (inr h)
  | inr p ↦ rw p (elim h [ inl q ↦ inl q | inr q ↦ inr (Listed-insert_sorted i x ys q) ])
]

-- Sorting loses no id.
pub Listed-sorted : (i : ℕ) (xs : List ℕ) → Listed i xs → Listed i (sorted xs)
unfolding sorted
Listed-sorted i [] h = h
Listed-sorted i (x ∷ xs) (inl p) = rw p (Listed-insert_sorted_self x (sorted xs))
Listed-sorted i (x ∷ xs) (inr h) = Listed-insert_sorted i x (sorted xs) (Listed-sorted i xs h)

-- Each id is at most the next.
abbrev pub IsAscending : List ℕ → Type 0
IsAscending [] = Unit
IsAscending (x ∷ []) = Unit
IsAscending (x ∷ y ∷ ys) = (x ≤ y) × IsAscending (y ∷ ys)

insert_sorted-IsAscending :
    (x : ℕ) (xs : List ℕ) → IsAscending xs → IsAscending (insert_sorted x xs)
unfolding insert_sorted
insert_sorted-IsAscending x [] h = tt
insert_sorted-IsAscending x (y ∷ []) h = ground arith
insert_sorted-IsAscending x (y ∷ z ∷ zs) h =
    ground (arith, insert_sorted-IsAscending x (z ∷ zs) h.1)

pub sorted-IsAscending : (xs : List ℕ) → IsAscending (sorted xs)
unfolding sorted
sorted-IsAscending [] = tt
sorted-IsAscending (x ∷ xs) = insert_sorted-IsAscending x (sorted xs) (sorted-IsAscending xs)

insert_sorted_comm :
    (x y : ℕ) (xs : List ℕ)
    → insert_sorted x (insert_sorted y xs) ≡ insert_sorted y (insert_sorted x xs)
unfolding insert_sorted
insert_sorted_comm x y [] = ground arith
insert_sorted_comm x y (z ∷ zs) = ground (arith, insert_sorted_comm x y zs)

sorted-permᴰ : {xs ys : List ℕ} → Permᴰ xs ys → sorted xs ≡ sorted ys
unfolding sorted
sorted-permᴰ Permᴰ.nil = refl
sorted-permᴰ (Permᴰ.cons {a = x} p rest) = rw (p, sorted-permᴰ rest)
sorted-permᴰ (Permᴰ.swap {a = x} {b = y} {l = l} p q) =
    rw (← p, ← q) (insert_sorted_comm x y (sorted l))
sorted-permᴰ (Permᴰ.trans p q) = sorted-permᴰ p ∙ sorted-permᴰ q

insert_sorted-Permᴰ : (x : ℕ) (xs : List ℕ) → Permᴰ (insert_sorted x xs) (x ∷ xs)
unfolding insert_sorted
insert_sorted-Permᴰ x [] = PermFacts.refl (x ∷ [])
insert_sorted-Permᴰ x (y ∷ ys) = elim (Bool-cases (leb x y)) [
  | inl p ↦ rw p (PermFacts.refl (x ∷ y ∷ ys))
  | inr p ↦ rw p (Permᴰ.trans (Permᴰ.cons refl (insert_sorted-Permᴰ x ys)) (Permᴰ.swap refl refl))
]

pub sorted-Permᴰ : (xs : List ℕ) → Permᴰ (sorted xs) xs
unfolding sorted
sorted-Permᴰ [] = Permᴰ.nil
sorted-Permᴰ (x ∷ xs) =
    Permᴰ.trans (insert_sorted-Permᴰ x (sorted xs)) (Permᴰ.cons refl (sorted-Permᴰ xs))

-- Sorting forgets the order that the ids come in.
pub sorted-perm : (xs ys : List ℕ) → Perm xs ys → sorted xs ≡ sorted ys
sorted-perm xs ys p =
    ∥∥₁_elim p (hedberg (List-discrete ℕ_discrete) (sorted xs) (sorted ys)) sorted-permᴰ
