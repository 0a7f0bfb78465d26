-- ===== src/Base/Maps.antt =====
-- A Go map as an association list: one entry for a key, in no particular order.
use mathlib.Core.Path.{◌≡◌, refl}
use mathlib.Core.Logic.{◌↔◌, ◌≢◌}
use mathlib.Core.Bool.{Bool, true}
use mathlib.Core.Option.{Option, none, some}
use mathlib.Core.List.{List, [], ◌∷◌}
use native.Mathlib.Omega.{arith}
use goapptrace.Base.Tests.{if◌then◌else◌, ◌==◌, ==_iff}
use goapptrace.Base.Int.{ℤ, ◌==ℤ◌, ==ℤ_iff}
use Prim.Native.Nat.{ℕ}

-- The comparable types, the keys of maps.
pub record Eq {ℓ} (K : Type ℓ) : Type ℓ where
  pub beq : K → K → Bool
  pub beq_iff : (a b : K) → (beq a b ≡ true) ↔ (a ≡ b)

instance abbrev pub nat_eq : Eq ℕ
nat_eq = record { beq = ◌==◌; beq_iff = ==_iff }

instance abbrev pub int_eq : Eq ℤ
int_eq = record { beq = ◌==ℤ◌; beq_iff = ==ℤ_iff }

beq_self {ℓ} : {K : Type ℓ} ⦃e : Eq K⦄ (k : K) → e.beq k k ≡ true
beq_self ⦃e⦄ k = (e.beq_iff k k).1 refl

-- What a filter leaves of a looked-up value.
abbrev pub kept {κ} : {V : Type κ} → (V → Bool) → Option V → Option V
kept p none = none
kept p (some v) = if p v then some v else none

module _ {ℓ κ} {K : Type ℓ} {V : Type κ} ⦃e : Eq K⦄ where
  -- v, ok := m[k]
  unfoldable pub lookup : K → List (K × V) → Option V
  lookup k [] = none
  lookup k ((j, v) ∷ m) = if e.beq j k then some v else lookup k m

  -- delete(m, k)
  unfoldable pub delete : K → List (K × V) → List (K × V)
  delete k [] = []
  delete k ((j, v) ∷ m) = if e.beq j k then delete k m else (j, v) ∷ delete k m

  -- m[k] = v
  unfoldable pub insert : K → V → List (K × V) → List (K × V)
  insert k v m = (k, v) ∷ delete k m

  -- for k, v := range m { if !p(v) { delete(m, k) } }
  unfoldable pub retain : (V → Bool) → List (K × V) → List (K × V)
  retain p [] = []
  retain p ((j, v) ∷ m) = if p v then (j, v) ∷ retain p m else retain p m

  abbrev pub HasUniqueKeys : List (K × V) → Type κ
  HasUniqueKeys [] = Unit {κ}
  HasUniqueKeys ((j, v) ∷ m) = (lookup j m ≡ none) × HasUniqueKeys m

  pub lookup-delete :
      (k j : K) (m : List (K × V))
      → lookup j (delete k m) ≡ (if e.beq k j then none else lookup j m)
  unfolding lookup delete
  lookup-delete k j [] = ground arith
  lookup-delete k j ((i, v) ∷ m) = ground (
    arith,
    e.beq_iff i k,
    e.beq_iff i j,
    e.beq_iff k j,
    beq_self k,
    beq_self j,
    lookup-delete k j m,
  )

  pub lookup-insert :
      (k j : K) (v : V) (m : List (K × V))
      → lookup j (insert k v m) ≡ (if e.beq k j then some v else lookup j m)
  unfolding lookup insert
  lookup-insert k j v m = ground (arith, lookup-delete k j m)

  pub lookup-insert_self : (k : K) (v : V) (m : List (K × V)) → lookup k (insert k v m) ≡ some v
  lookup-insert_self k v m = rw (lookup-insert k k v m, beq_self k)

  pub lookup-insert_ne :
      (k j : K) (v : V) (m : List (K × V)) → k ≢ j → lookup j (insert k v m) ≡ lookup j m
  lookup-insert_ne k j v m h = ground (arith, lookup-insert k j v m, e.beq_iff k j)

  pub lookup-delete_ne : (k j : K) (m : List (K × V)) → k ≢ j → lookup j (delete k m) ≡ lookup j m
  lookup-delete_ne k j m h = ground (arith, lookup-delete k j m, e.beq_iff k j)

  pub delete-HasUniqueKeys :
      (k : K) (m : List (K × V)) → HasUniqueKeys m → HasUniqueKeys (delete k m)
  unfolding delete
  delete-HasUniqueKeys k [] u = tt
  delete-HasUniqueKeys k ((j, v) ∷ m) u =
      ground (arith, lookup-delete k j m, delete-HasUniqueKeys k m u.1)

  pub insert-HasUniqueKeys :
      (k : K) (v : V) (m : List (K × V)) → HasUniqueKeys m → HasUniqueKeys (insert k v m)
  unfolding insert
  insert-HasUniqueKeys k v m u = (rw (lookup-delete k k m, beq_self k), delete-HasUniqueKeys k m u)

  pub lookup-retain :
      (p : V → Bool) (k : K) (m : List (K × V))
      → HasUniqueKeys m
      → lookup k (retain p m) ≡ kept p (lookup k m)
  unfolding lookup retain
  lookup-retain p k [] u = refl
  lookup-retain p k ((j, v) ∷ m) u = ground (arith, e.beq_iff j k, lookup-retain p k m u.1, u.0)

  pub retain-HasUniqueKeys :
      (p : V → Bool) (m : List (K × V)) → HasUniqueKeys m → HasUniqueKeys (retain p m)
  unfolding retain
  retain-HasUniqueKeys p [] u = tt
  retain-HasUniqueKeys p ((j, v) ∷ m) u =
      ground (arith, lookup-retain p j m u.1, retain-HasUniqueKeys p m u.1)
