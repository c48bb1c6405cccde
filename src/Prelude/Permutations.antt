-- ===== src/Prelude/Permutations.antt =====
-- Permutations of a list, and `xs[i], xs[j] = xs[j], xs[i]`.
use Prim.Native.Nat.{ℕ, zero, suc, ◌≤◌}
use mathlib.Core.Path.{◌≡◌, refl, ap, ◌∙◌}
use mathlib.Core.Logic.{∥∥₁_elim}
use mathlib.Core.List.{List, [], ◌∷◌, Perm}
use mathlib.Core.List.Perm
use mathlib.Core.List.{Permᴰ}
use mathlib.Core.Bool.{Bool, true, ◌&&◌}
use mathlib.Core.Option.{Option, none, some}
use native.Mathlib.Omega.{arith}
use interview_agent_py.Prelude.Lists.{length, get_elem?, set}

-- Python raises IndexError for a place out of range, which no caller gives.
unfoldable pub swap {ℓ} : {A : Type ℓ} → List A → ℕ → ℕ → List A
swap xs i j = elim (get_elem? xs i) [
  | none ↦ xs
  | some a ↦ elim (get_elem? xs j) [ none ↦ xs | some b ↦ set (set xs i b) j a ]
]

-- `all(test(x) for x in xs)`
unfoldable pub all {ℓ} : {A : Type ℓ} → (A → Bool) → List A → Bool
all p [] = true
all p (x ∷ xs) = p x && all p xs

path_prop_ℕ : (a b : ℕ) → IsProp (a ≡ b)
path_prop_ℕ a b = hlevel

path_prop_Bool : (a b : Bool) → IsProp (a ≡ b)
path_prop_Bool a b = hlevel

module _ {ℓ} {A : Type ℓ} where
  length-Permᴰ : {xs ys : List A} → Permᴰ xs ys → length xs ≡ length ys
  length-Permᴰ Permᴰ.nil = refl
  length-Permᴰ (Permᴰ.cons e d) = ap suc (length-Permᴰ d)
  length-Permᴰ (Permᴰ.swap e f) = refl
  length-Permᴰ (Permᴰ.trans d e) = length-Permᴰ d ∙ length-Permᴰ e

  pub length-Perm : {xs ys : List A} → Perm xs ys → length xs ≡ length ys
  length-Perm {xs} {ys} p = ∥∥₁_elim p (path_prop_ℕ (length xs) (length ys)) length-Permᴰ

  all-Permᴰ : (p : A → Bool) {xs ys : List A} → Permᴰ xs ys → all p xs ≡ all p ys
  unfolding all
  all-Permᴰ p Permᴰ.nil = refl
  all-Permᴰ p (Permᴰ.cons e d) = rw (e, all-Permᴰ p d) refl
  all-Permᴰ p (Permᴰ.swap e f) = rw (e, f) (ground arith)
  all-Permᴰ p (Permᴰ.trans d e) = all-Permᴰ p d ∙ all-Permᴰ p e

  pub all-Perm : (p : A → Bool) {xs ys : List A} → Perm xs ys → all p xs ≡ all p ys
  all-Perm p {xs} {ys} d = ∥∥₁_elim d (path_prop_Bool (all p xs) (all p ys)) (all-Permᴰ p)

  set-Perm :
      (xs : List A) (j : ℕ) {a b : A} → get_elem? xs j ≡ some b → Perm (b ∷ set xs j a) (a ∷ xs)
  set-Perm [] j e = absurd (ground arith)
  set-Perm (x ∷ xs) zero {a} {b} e =
      let x_is_b : x ≡ b = ground arith in rw x_is_b (Perm.swap a b xs)
  set-Perm (x ∷ xs) (suc j) {a} {b} e =
      Perm.trans (Perm.swap x b (set xs j a))
        (Perm.trans (Perm.cons x (set-Perm xs j e)) (Perm.swap a x xs))

  set-set-Perm :
      (xs : List A) (i j : ℕ) {a b : A}
      → i ≤ j
      → get_elem? xs i ≡ some a
      → get_elem? xs j ≡ some b
      → Perm (set (set xs i b) j a) xs
  set-set-Perm [] i j le ei ej = absurd (ground arith)
  set-set-Perm (x ∷ xs) zero zero {a} le ei ej =
      let x_is_a : x ≡ a = ground arith in rw x_is_a Perm.rfl
  set-set-Perm (x ∷ xs) zero (suc j) {a} le ei ej =
      let x_is_a : x ≡ a = ground arith in rw x_is_a (set-Perm xs j ej)
  set-set-Perm (x ∷ xs) (suc i) zero le ei ej = absurd (omega arith)
  set-set-Perm (x ∷ xs) (suc i) (suc j) le ei ej =
      Perm.cons x (set-set-Perm xs i j (omega arith) ei ej)

  pub swap-Perm : (xs : List A) (i j : ℕ) → i ≤ j → Perm (swap xs i j) xs
  unfolding swap
  swap-Perm xs i j le = split (get_elem? xs i) (get_elem? xs j) refl refl
    where
      split :
          (a b : Option A)
          → get_elem? xs i ≡ a
          → get_elem? xs j ≡ b
          → Perm
              (elim a [ none ↦ xs | some a ↦ elim b [ none ↦ xs | some b ↦ set (set xs i b) j a ] ])
              xs
      split none b ea eb = Perm.rfl
      split (some a) none ea eb = Perm.rfl
      split (some a) (some b) ea eb = set-set-Perm xs i j le ea eb
