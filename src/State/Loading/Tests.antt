-- ===== src/State/Loading/Tests.antt =====
-- A history of two pages, the markers "1" and "0".
use durable_execution_rust_s.Prelude.{
  ℕ, suc, ◌≡◌, ◌<◌, subst, String, str_eq, if◌then◌else◌, Bool, true, false, Option, none, some, [],
  ◌∷◌, arith,
}
use durable_execution_rust_s.Errors.{DurableError, ok, err}
use durable_execution_rust_s.Client.{Client}
use durable_execution_rust_s.Operation.Kinds.{OperationType}
use durable_execution_rust_s.Operation.Record.{new_operation}
use durable_execution_rust_s.State.Model.{
  ExecutionState, CheckpointingMode, with_checkpointing_mode,
}
use durable_execution_rust_s.State.Loading.{load_all_operations}
use durable_execution_rust_s.State.Loading.Laws.{PagesEnd, Loaded, load_all_ends}

abbrev next_page : String → Option String
next_page marker = if str_eq marker "1" then some "0" else none

abbrev two_pages : Client ℕ
two_pages = record {
  checkpoint = λ arn token updates calls. (err (DurableError.validation "read only"), calls);
  get_operations = λ arn marker calls. (
    ok (record {
      operations = new_operation marker OperationType.step ∷ [];
      next_marker = next_page marker;
    }),
    suc calls,
  );
}

abbrev page_rank : String → ℕ
page_rank marker = if str_eq marker "1" then 1 else 0

next_page_ends :
    (b : Bool) (next : String)
    → (if b then some "0" else none) ≡ some next
    → page_rank next < (if b then 1 else 0)
next_page_ends true next h = let e : "0" ≡ next = cc in subst (λ n. page_rank n < 1) e (omega arith)
next_page_ends false next h = absurd cc

two_pages_end : PagesEnd two_pages page_rank
two_pages_end arn marker next w page e h = next_page_ends (str_eq marker "1") next cc

abbrev first_page : ExecutionState
first_page =
    with_checkpointing_mode "arn" "token" (record { operations = []; next_marker = some "1" })
      CheckpointingMode.batched

load_all_ends_example :
    Loaded two_pages page_rank two_pages_end first_page
      (load_all_operations two_pages 4 first_page 0)
unfolding with_checkpointing_mode
load_all_ends_example = load_all_ends two_pages page_rank two_pages_end 4 first_page 0 (omega arith)
