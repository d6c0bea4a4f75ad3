-- ===== src/Serdes.antt =====
-- `JsonSerDes` of sdk/src/serdes.rs, which passes a value to serde_json. That library is a parameter:
-- the text of a value, the value of a text, or the text of an error.
use durable_execution_rust_s.Prelude.{String, ◌≡◌, ◌⊎◌, inl, inr, ◌<>◌}
use durable_execution_rust_s.Errors.{DurableError, Result, ok, err}

pub record JsonSerDes (T : Type 0) : Type 0 where
  pub serialize : T → String ⊎ String
  pub deserialize : String → T ⊎ String

-- The text of a value reads back as the value.
abbrev pub RoundTrip : {T : Type 0} → JsonSerDes T → Type 0
RoundTrip {T} serdes =
    (v : T) (text : String) → serdes.serialize v ≡ inl text → serdes.deserialize text ≡ inl v

-- `.map_err(|e| DurableError::SerDes { message: format!("{context}: {}", e) })`.
abbrev pub or_ser_des : {A : Type 0} → String → A ⊎ String → Result A
or_ser_des context (inl a) = ok a
or_ser_des context (inr e) = err (DurableError.ser_des (context <> ": " <> e))
