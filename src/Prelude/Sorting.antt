-- ===== src/Prelude/Sorting.antt =====
-- `sorted`, which keeps the order of items that compare equal, and the order of texts.
use mathlib.Core.Path.{◌≡◌}
use mathlib.Core.Logic.{inl, inr}
use mathlib.Core.Bool.{Bool, true, false, ◌||◌, ◌&&◌}
use mathlib.Core.List.{List, [], ◌∷◌, Perm}
use mathlib.Core.List.Perm
use interview_agent_py.Prelude.Tests.{if◌then◌else◌, ltb, ◌==◌, Bool-cases}
use interview_agent_py.Prelude.Texts.{Text}

-- `a <= b`
unfoldable pub text_leb : Text → Text → Bool
text_leb [] t = true
text_leb (c ∷ s) [] = false
text_leb (c ∷ s) (d ∷ t) = ltb c d || c == d && text_leb s t

module _ {ℓ} {A : Type ℓ} (le : A → A → Bool) where
  unfoldable pub insert : A → List A → List A
  insert x [] = x ∷ []
  insert x (y ∷ ys) = if le x y then x ∷ y ∷ ys else y ∷ insert x ys

  unfoldable pub sorted : List A → List A
  unfolding insert
  sorted [] = []
  sorted (x ∷ xs) = insert x (sorted xs)

  insert-Perm : (x : A) (ys : List A) → Perm (insert x ys) (x ∷ ys)
  unfolding insert
  insert-Perm x [] = Perm.rfl
  insert-Perm x (y ∷ ys) = elim (Bool-cases (le x y)) [
    | inl first ↦ rw first Perm.rfl
    | inr later ↦ rw later (Perm.trans (Perm.cons y (insert-Perm x ys)) (Perm.swap x y ys))
  ]

  pub sorted-Perm : (xs : List A) → Perm (sorted xs) xs
  unfolding sorted
  sorted-Perm [] = Perm.rfl
  sorted-Perm (x ∷ xs) = Perm.trans (insert-Perm x (sorted xs)) (Perm.cons x (sorted-Perm xs))

  -- Each item may stand before the next one.
  abbrev pub Ordered : List A → Type 0
  Ordered [] = Unit
  Ordered (x ∷ []) = Unit
  Ordered (x ∷ y ∷ ys) = (le x y ≡ true) × Ordered (y ∷ ys)

  insert-Ordered :
      ((a b : A) → le a b ≡ false → le b a ≡ true)
      → (x : A) (ys : List A) → Ordered ys
      → Ordered (insert x ys)
  unfolding insert
  insert-Ordered total x [] h = tt
  insert-Ordered total x (y ∷ []) h = elim (Bool-cases (le x y)) [
    | inl first ↦ rw first (first, tt)
    | inr later ↦ rw later (total x y later, tt)
  ]
  insert-Ordered total x (y ∷ z ∷ zs) h = elim (Bool-cases (le x y)) [
    | inl first ↦ rw first (first, h)
    | inr later ↦ elim (Bool-cases (le x z)) [
      | inl before_z ↦ rw (later, before_z) (total x y later, (before_z, h.1))
      | inr after_z ↦
          let rest = insert-Ordered total x (z ∷ zs) h.1 in
          rw (later, after_z) (h.0, rw after_z at rest)
    ]
  ]

  pub sorted-Ordered :
      ((a b : A) → le a b ≡ false → le b a ≡ true) → (xs : List A) → Ordered (sorted xs)
  unfolding sorted
  sorted-Ordered total [] = tt
  sorted-Ordered total (x ∷ xs) = insert-Ordered total x (sorted xs) (sorted-Ordered total xs)
