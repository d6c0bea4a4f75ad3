-- ===== src/Prelude/Sets.antt =====
-- Sets of texts as lists without repetition: counting them, and the keys of a dictionary.
use Prim.Native.Nat.{suc, ◌≤◌}
use Prim.Native.String.{String}
use mathlib.Core.Path.{◌≡◌, refl, ap}
use mathlib.Core.Bool.{true, false, ◌||◌}
use mathlib.Core.Logic.{inl, inr}
use mathlib.Core.List.{List, [], ◌∷◌}
use native.Mathlib.Omega.{arith}
use text.Mathlib.TextEquality.{eq_iff}
use durable_execution_rust_s.Prelude.Tests.{if◌then◌else◌, is_some, Bool-cases}
use durable_execution_rust_s.Prelude.Lists.{length}
use durable_execution_rust_s.Prelude.Texts.{str_eq}
use durable_execution_rust_s.Prelude.Dict.{Dict, lookup, insert, member, add}

abbrev pub Distinct : List String → Type 0
Distinct [] = Unit
Distinct (k ∷ s) = (member k s ≡ false) × Distinct s

-- Every text of the first list is in the second.
abbrev pub Within : List String → List String → Type 0
Within s t = (k : String) → member k s ≡ true → member k t ≡ true

pub add-Distinct : (k : String) (s : List String) → Distinct s → Distinct (add k s)
unfolding add
add-Distinct k s d = ground arith

remove : String → List String → List String
remove k [] = []
remove k (j ∷ s) = if str_eq j k then s else j ∷ remove k s

length-remove :
    (k : String) (s : List String) → member k s ≡ true → suc (length (remove k s)) ≡ length s
unfolding remove member
length-remove k [] h = absurd (ground arith)
length-remove k (j ∷ s) h = ground (arith, length-remove k s)

member-remove :
    (k j : String) (s : List String)
    → str_eq k j ≡ false
    → member j s ≡ true
    → member j (remove k s) ≡ true
unfolding remove member
member-remove k j [] ne h = h
member-remove k j (i ∷ s) ne h =
    ground (arith, eq_iff i k, eq_iff i j, eq_iff k j, member-remove k j s ne)

member_apart :
    (k j : String) (s : List String) → member k s ≡ false → member j s ≡ true → str_eq k j ≡ false
unfolding member
member_apart k j s out h = elim (Bool-cases (str_eq k j)) [
  | inl same ↦ cc (out, h, ap (λ i. member i s) ((eq_iff k j).0 same))
  | inr other ↦ other
]

rest-Within :
    (k : String) (s t : List String) → member k s ≡ false → Within (k ∷ s) t → Within s (remove k t)
unfolding member
rest-Within k s t out w j h =
    member-remove k j t (member_apart k j s out h) (w j (ground (arith, h)))

-- Distinct texts within another list are no more than that list has.
pub length-le-Within : (s t : List String) → Distinct s → Within s t → length s ≤ length t
unfolding member
length-le-Within [] t d w = omega arith
length-le-Within (k ∷ s) t d w = omega (
  arith,
  length-remove k t (w k (ground (arith, eq_iff k k))),
  length-le-Within s (remove k t) d.1 (rest-Within k s t d.0 w),
)

-- As many distinct texts as the other list has, and within it, are all of it.
pub covers :
    (s t : List String) (k : String)
    → Distinct s
    → Within s t
    → length t ≤ length s
    → member k t ≡ true
    → member k s ≡ true
unfolding member
covers [] [] k d w le h = h
covers [] (j ∷ t) k d w le h = absurd (omega arith)
covers (i ∷ s) t k d w le h = elim (Bool-cases (str_eq i k)) [
  | inl same ↦ rw same refl
  | inr other ↦ rw other (
      covers s (remove i t) k d.1 (rest-Within i s t d.0 w)
        (omega (arith, length-remove i t (w i (ground (arith, eq_iff i i)))))
        (member-remove i k t other h))
]

module _ {ℓ} {V : Type ℓ} where
  abbrev pub keys : Dict V → List String
  keys [] = []
  keys ((key, value) ∷ others) = key ∷ keys others

  pub length-keys : (dict : Dict V) → length (keys dict) ≡ length dict
  length-keys [] = refl
  length-keys ((key, value) ∷ others) = omega (arith, length-keys others)

  pub member-keys :
      (key : String) (dict : Dict V) → member key (keys dict) ≡ is_some (lookup key dict)
  unfolding member lookup
  member-keys key [] = refl
  member-keys key ((first, value) ∷ others) = ground (arith, member-keys key others)

  member-keys-insert :
      (key other : String) (value : V) (dict : Dict V)
      → member other (keys (insert key value dict)) ≡ (str_eq key other || member other (keys dict))
  unfolding member insert
  member-keys-insert key other value [] = refl
  member-keys-insert key other value ((first, old) ∷ others) = ground (
    arith,
    member-keys-insert key other value others,
    eq_iff first key,
    eq_iff first other,
    eq_iff key other,
  )

  pub insert-Distinct :
      (key : String) (value : V) (dict : Dict V)
      → Distinct (keys dict)
      → Distinct (keys (insert key value dict))
  unfolding insert member
  insert-Distinct key value [] d = ground arith
  insert-Distinct key value ((first, old) ∷ others) d = ground (
    arith,
    insert-Distinct key value others d.1,
    member-keys-insert key first value others,
    eq_iff first key,
    eq_iff key first,
  )
