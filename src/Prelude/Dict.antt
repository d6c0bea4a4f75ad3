-- ===== src/Prelude/Dict.antt =====
-- `HashMap<String, V>` as an association list with one entry a key, and `HashSet<String>` as a list
-- without repetition. The order of the entries is not observed by the modelled code.
use Prim.Native.Nat.{suc}
use Prim.Native.String.{String}
use mathlib.Core.Path.{◌≡◌, refl}
use mathlib.Core.Bool.{Bool, true, false, ◌||◌}
use mathlib.Core.Option.{Option, none, some}
use mathlib.Core.List.{List, [], ◌∷◌}
use native.Mathlib.Omega.{arith}
use text.Mathlib.TextEquality.{eq_iff}
use durable_execution_rust_s.Prelude.Tests.{if◌then◌else◌, is_some}
use durable_execution_rust_s.Prelude.Lists.{length}
use durable_execution_rust_s.Prelude.Texts.{str_eq}

abbrev pub Dict {ℓ} : Type ℓ → Type ℓ
Dict V = List (String × V)

module _ {ℓ} {V : Type ℓ} where
  -- `get(key)`.
  unfoldable pub lookup : String → Dict V → Option V
  lookup key [] = none
  lookup key ((first, value) ∷ others) =
      let found = lookup key others in (if str_eq first key then some value else found)

  -- `insert(key, value)`, which keeps the place of a known key.
  unfoldable pub insert : String → V → Dict V → Dict V
  insert key value [] = (key, value) ∷ []
  insert key value ((first, old) ∷ others) =
      let below = insert key value others in
      (if str_eq first key then (key, value) ∷ others else (first, old) ∷ below)

  pub lookup-insert :
      (key other : String) (value : V) (dict : Dict V)
      → lookup other (insert key value dict)
        ≡ (if str_eq key other then some value else lookup other dict)
  unfolding insert lookup
  lookup-insert key other value [] = refl
  lookup-insert key other value ((first, old) ∷ others) = ground (
    arith,
    lookup-insert key other value others,
    eq_iff first key,
    eq_iff first other,
    eq_iff key other,
  )

  pub length-insert :
      (key : String) (value : V) (dict : Dict V)
      → length (insert key value dict)
        ≡ (if is_some (lookup key dict) then length dict else suc (length dict))
  unfolding insert lookup
  length-insert key value [] = refl
  length-insert key value ((first, old) ∷ others) = ground (arith, length-insert key value others)

unfoldable pub member : String → List String → Bool
member k [] = false
member k (j ∷ s) = str_eq j k || member k s

unfoldable pub add : String → List String → List String
unfolding member
add k s = if member k s then s else k ∷ s

pub member-add : (k j : String) (s : List String) → member j (add k s) ≡ (str_eq k j || member j s)
unfolding add
member-add k j s = go (member k s) refl
  where
    go : (b : Bool) → member k s ≡ b → member j (add k s) ≡ (str_eq k j || member j s)
    go true e = ground (arith, eq_iff k j)
    go false e = ground arith
