-- ===== src/Prelude/Dict.antt =====
-- Python's `dict`: its items in insertion order. Assigning a present key keeps its place.
use interview_agent_py.Prelude.Tests.{if◌then◌else◌, Bool-cases}
use interview_agent_py.Prelude.Equality.{Eq, ◌=?◌, contains, IsDistinct, =?-refl}
use mathlib.Core.Path.{◌≡◌, refl}
use mathlib.Core.Logic.{inl, inr}
use mathlib.Core.Bool.{true, false}
use mathlib.Core.Option.{Option, none, some}
use mathlib.Core.List.{List, [], ◌∷◌}
use Prim.Native.Nat.{ℕ, ◌+◌}
use interview_agent_py.Prelude.Lists.{sum}
use native.Mathlib.Omega.{arith}

abbrev pub Dict {ℓ κ} : Type ℓ → Type κ → Type (ℓ ⊔ κ)
Dict K V = List (K × V)

module _ {ℓ κ} {K : Type ℓ} {V : Type κ} where
  abbrev pub keys : Dict K V → List K
  keys [] = []
  keys ((k, v) ∷ d) = k ∷ keys d

  abbrev pub values : Dict K V → List V
  values [] = []
  values ((k, v) ∷ d) = v ∷ values d

module _ {ℓ κ} {K : Type ℓ} {V : Type κ} ⦃e : Eq K⦄ where
  -- `d.get(k)`
  unfoldable pub get : Dict K V → K → Option V
  get [] k = none
  get ((j, v) ∷ d) k = if j =? k then some v else get d k

  -- `d[k] = v`
  unfoldable pub put : Dict K V → K → V → Dict K V
  put [] k v = (k, v) ∷ []
  put ((j, w) ∷ d) k v = if j =? k then (j, v) ∷ d else (j, w) ∷ put d k v

  -- `d.get(k, default)`
  unfoldable pub get_or : Dict K V → K → V → V
  get_or d k v = elim (get d k) [ none ↦ v | some w ↦ w ]

  -- `d.setdefault(k, v)`
  unfoldable pub set_default : Dict K V → K → V → Dict K V
  set_default d k v = elim (get d k) [ none ↦ put d k v | some w ↦ d ]

  -- `d.pop(k, None)`
  unfoldable pub remove : Dict K V → K → Dict K V
  remove [] k = []
  remove ((j, w) ∷ d) k = if j =? k then remove d k else (j, w) ∷ remove d k

  pub get-remove :
      (d : Dict K V) (k j : K) → get (remove d k) j ≡ (if k =? j then none else get d j)
  unfolding get remove
  get-remove [] k j = ground arith
  get-remove ((i, w) ∷ d) k j =
      ground (arith, e.beq_iff k j, e.beq_iff i k, e.beq_iff i j, get-remove d k j)

  pub get-put :
      (d : Dict K V) (k j : K) (v : V) → get (put d k v) j ≡ (if k =? j then some v else get d j)
  unfolding get put
  get-put [] k j v = refl
  get-put ((i, w) ∷ d) k j v =
      ground (arith, e.beq_iff k j, e.beq_iff i k, e.beq_iff i j, get-put d k j v)

  pub get-put_self : (d : Dict K V) (k : K) (v : V) → get (put d k v) k ≡ some v
  get-put_self d k v = ground (arith, get-put d k k v, =?-refl k)

  pub contains-keys-put :
      (d : Dict K V) (k j : K) (v : V)
      → contains j (keys (put d k v)) ≡ (if k =? j then true else contains j (keys d))
  unfolding contains put
  contains-keys-put [] k j v = ground arith
  contains-keys-put ((i, w) ∷ d) k j v =
      ground (arith, e.beq_iff k j, e.beq_iff i k, e.beq_iff i j, contains-keys-put d k j v)

  pub get-none_of_contains : (d : Dict K V) (k : K) → contains k (keys d) ≡ false → get d k ≡ none
  unfolding contains get
  get-none_of_contains [] k h = refl
  get-none_of_contains ((j, v) ∷ d) k h = ground (arith, get-none_of_contains d k)

  pub keys-put-IsDistinct :
      (d : Dict K V) (k : K) (v : V) → IsDistinct (keys d) → IsDistinct (keys (put d k v))
  unfolding put contains
  keys-put-IsDistinct [] k v h = (refl, tt)
  keys-put-IsDistinct ((j, w) ∷ d) k v h = elim (Bool-cases (j =? k)) [
    | inl same ↦ rw same h
    | inr other ↦ rw other (
      ground (arith, contains-keys-put d k j v, e.beq_iff k j, e.beq_iff j k),
      keys-put-IsDistinct d k v h.1,
    )
  ]

module _ {ℓ} {K : Type ℓ} ⦃e : Eq K⦄ where
  pub get_or-put :
      (d : Dict K ℕ) (k j : K) (v : ℕ)
      → get_or (put d k v) j 0 ≡ (if k =? j then v else get_or d j 0)
  unfolding get_or
  get_or-put d k j v = ground (arith, get-put d k j v)

  pub get_or-set_default : (d : Dict K ℕ) (k j : K) → get_or (set_default d k 0) j 0 ≡ get_or d j 0
  unfolding get_or set_default
  get_or-set_default d k j = ground (arith, get-put d k j 0, e.beq_iff k j)

  -- Writing a value changes the sum by the difference from the value before.
  pub sum-values-put :
      (d : Dict K ℕ) (k : K) (v : ℕ) → sum (values (put d k v)) + get_or d k 0 ≡ sum (values d) + v
  unfolding get_or get put sum
  sum-values-put [] k v = omega arith
  sum-values-put ((j, w) ∷ d) k v = elim (Bool-cases (j =? k)) [
    | inl same ↦ rw (same, get_or, get) (omega arith)
    | inr other ↦ rw (other, get_or, get) (omega (arith, sum-values-put d k v))
  ]

  pub sum-values-set_default :
      (d : Dict K ℕ) (k : K) → sum (values (set_default d k 0)) ≡ sum (values d)
  unfolding set_default get_or
  sum-values-set_default d k = ground (arith, sum-values-put d k 0)
