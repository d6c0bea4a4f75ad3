-- ===== src/Prelude/Texts.antt =====
-- Texts as `format!` and `String` use them.
use Prim.Native.Nat.{ℕ, zero, suc, ◌/◌, ◌%◌}
use Prim.Native.String.{String, len, slice}
use Prim.Native.String
use mathlib.Core.Bool.{Bool}
use text.Mathlib.Text.{◌==◌ as str_equal, find?}
use durable_execution_rust_s.Prelude.Tests.{ltb, if◌then◌else◌, is_some}

infixr 65 ◌<>◌
abbrev pub ◌<>◌ : String → String → String
s <> t = String.◌++◌ s t

abbrev pub str_eq : String → String → Bool
str_eq = str_equal

-- `str::len`, the bytes of the text.
abbrev pub byte_len : String → ℕ
byte_len = len

-- `s.contains(t)`.
pub contains_text : String → String → Bool
contains_text s t = is_some (find? s t)

-- The decimal figures of `n`, in front of `tail`.
figures : ℕ → ℕ → String → String
figures zero n tail = tail
figures (suc fuel) n tail =
    let extended = slice "0123456789" (n % 10) (suc (n % 10)) <> tail in
    let rest = figures fuel (n / 10) extended in if ltb n 10 then extended else rest

-- A number in decimal, as `{}` prints it; a number has fewer digits than its successor.
pub show_nat : ℕ → String
show_nat n = figures (suc n) n ""
