-- ===== src/Prelude/Tally.antt =====
-- Reading, writing and counting by index in a list.
use Prim.Native.Nat.{ℕ, zero, suc, ◌+◌, ◌≤◌, ◌<◌}
use mathlib.Core.Path.{◌≡◌, refl, subst}
use mathlib.Core.Option.{Option, none, some, some-injective}
use mathlib.Core.List.{List, [], ◌∷◌}
use native.Mathlib.Omega.{arith}
use native.Mathlib.Decide.{dec_lt}
use durable_execution_rust_s.Prelude.Lists.{length, All}

module _ {ℓ} {A : Type ℓ} where
  abbrev pub get_elem? : List A → ℕ → Option A
  get_elem? [] i = none
  get_elem? (x ∷ xs) zero = some x
  get_elem? (x ∷ xs) (suc i) = get_elem? xs i

  -- A write out of bounds changes nothing.
  abbrev pub set : List A → ℕ → A → List A
  set [] i v = []
  set (x ∷ xs) zero v = v ∷ xs
  set (x ∷ xs) (suc i) v = x ∷ set xs i v

  -- The sum of a weight over a list.
  abbrev pub tally : (A → ℕ) → List A → ℕ
  tally f [] = 0
  tally f (x ∷ xs) = f x + tally f xs

  pub length-set : (xs : List A) (i : ℕ) (v : A) → length (set xs i v) ≡ length xs
  length-set [] i v = refl
  length-set (x ∷ xs) zero v = refl
  length-set (x ∷ xs) (suc i) v = omega (arith, length-set xs i v)

  pub tally-set :
      (f : A → ℕ) (xs : List A) (i : ℕ) (x v : A)
      → get_elem? xs i ≡ some x
      → tally f (set xs i v) + f x ≡ tally f xs + f v
  tally-set f [] i x v h = absurd (ground arith)
  tally-set f (y ∷ xs) zero x v h = ground arith
  tally-set f (y ∷ xs) (suc i) x v h = omega (arith, tally-set f xs i x v h)

  pub tally-le-length : (f : A → ℕ) (xs : List A) → ((x : A) → f x ≤ 1) → tally f xs ≤ length xs
  tally-le-length f [] h = omega arith
  tally-le-length f (x ∷ xs) h = omega (arith, h x, tally-le-length f xs h)

  pub All-set {κ} :
      (P : A → Type κ) (xs : List A) (i : ℕ) (v : A) → P v → All P xs → All P (set xs i v)
  All-set P [] i v p ps = ps
  All-set P (x ∷ xs) zero v p ps = (p, ps.1)
  All-set P (x ∷ xs) (suc i) v p ps = (ps.0, All-set P xs i v p ps.1)

  pub All-get {κ} :
      (P : A → Type κ) (xs : List A) (i : ℕ) (x : A) → All P xs → get_elem? xs i ≡ some x → P x
  All-get P [] i x ps h = absurd (ground arith)
  All-get P (y ∷ xs) zero x ps h = subst P (some-injective y x h) ps.0
  All-get P (y ∷ xs) (suc i) x ps h = All-get P xs i x ps.1 h

  pub tally_mono : (f g : A → ℕ) (xs : List A) → ((x : A) → f x ≤ g x) → tally f xs ≤ tally g xs
  tally_mono f g [] h = omega arith
  tally_mono f g (x ∷ xs) h = omega (arith, h x, tally_mono f g xs h)

  pub tally-add : (f g : A → ℕ) (xs : List A) → tally (λ x. f x + g x) xs ≡ tally f xs + tally g xs
  tally-add f g [] = refl
  tally-add f g (x ∷ xs) = omega (arith, tally-add f g xs)

  -- A weight that misses an element stays below the length.
  pub tally-lt-length :
      (f : A → ℕ) (xs : List A) (i : ℕ) (x : A)
      → ((a : A) → f a ≤ 1)
      → get_elem? xs i ≡ some x
      → f x ≡ 0
      → tally f xs < length xs
  tally-lt-length f [] i x h e z = absurd (ground arith)
  tally-lt-length f (y ∷ xs) zero x h e z = ground (arith, tally-le-length f xs h)
  tally-lt-length f (y ∷ xs) (suc i) x h e z = omega (arith, h y, tally-lt-length f xs i x h e z)

  pub weight-le-tally :
      (f : A → ℕ) (xs : List A) (i : ℕ) (x : A) → get_elem? xs i ≡ some x → f x ≤ tally f xs
  weight-le-tally f [] i x e = absurd (ground arith)
  weight-le-tally f (y ∷ xs) zero x e = ground arith
  weight-le-tally f (y ∷ xs) (suc i) x e = omega (arith, weight-le-tally f xs i x e)

  -- A positive sum has a positive part.
  pub tally-positive :
      (f : A → ℕ) (xs : List A)
      → 0 < tally f xs
      → (i : ℕ) × ((x : A) × (get_elem? xs i ≡ some x) × (0 < f x))
  tally-positive f [] h = absurd (omega arith)
  tally-positive f (x ∷ xs) h = elim (dec_lt 0 (f x)) [
    | yes p ↦ (0, (x, refl, p))
    | no n ↦ let (i, (y, e, p)) = tally-positive f xs (omega arith) in (suc i, (y, e, p))
  ]
