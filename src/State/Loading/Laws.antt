-- ===== src/State/Loading/Laws.antt =====
-- `load_all_operations` of sdk/src/state/execution_state.rs, for a service whose pages end.
use durable_execution_rust_s.Prelude.{
  ℕ, zero, suc, ◌<◌, String, ◌≡◌, refl, Bool, true, false, Option, none, some, arith, ap, sym,
}
use durable_execution_rust_s.Errors.{Result, ok, err}
use durable_execution_rust_s.Client.{Client, GetOperationsResponse}
use durable_execution_rust_s.Throttle.Laws.{nth_call, with_retry_ends}
use durable_execution_rust_s.State.Model.{ExecutionState}
use durable_execution_rust_s.State.Invariant.{IsValid, insert_all-Filed, insert_all-Distinct}
use durable_execution_rust_s.State.Checkpoint.{Run}
use durable_execution_rust_s.State.Loading.{
  page_result, after_page, load_page, load_more_operations, after_more, load_all_operations,
}

nth_call-eq {ℓ} :
    {S : Type 0} {A : Type ℓ} (call : S → Result A × S) (k : ℕ) (w : S)
    → (w' : S) × (nth_call call k w ≡ call w')
nth_call-eq call zero w = (w, refl)
nth_call-eq call (suc k) w = nth_call-eq call k (call w).1

-- Each page's marker ranks below the marker that asked for it, so the pages come to an end.
abbrev pub PagesEnd : {S : Type 0} → Client S → (String → ℕ) → Type 0
PagesEnd {S} client rank =
    (arn marker next : String) (w : S) (page : GetOperationsResponse)
    → (client.get_operations arn marker w).0 ≡ ok page
    → page.next_marker ≡ some next
    → rank next < rank marker

abbrev pub pages_left : (String → ℕ) → Option String → ℕ
pages_left rank none = 0
pages_left rank (some marker) = suc (rank marker)

module _ {S : Type 0} (client : Client S) (rank : String → ℕ) (ends : PagesEnd client rank) where
  -- What is known after a request for a page.
  record Page (s : ExecutionState) (r : Run Bool S) : Type 0 where
    fewer : r.0 ≡ ok true → pages_left rank r.1.next_marker < pages_left rank s.next_marker
    last : r.0 ≡ ok false → r.1.next_marker ≡ none
    valid : IsValid s → IsValid r.1

  pages_left-lt :
      (m : String) (n : Option String)
      → ((next : String) → n ≡ some next → rank next < rank m)
      → pages_left rank n < suc (rank m)
  pages_left-lt m none h = omega arith
  pages_left-lt m (some next) h = omega (arith, h next refl)

  page_result-Page :
      (s : ExecutionState) (m : String) (a : Result GetOperationsResponse) (w w' : S)
      → s.next_marker ≡ some m
      → (client.get_operations s.durable_execution_arn m w').0 ≡ a
      → Page s (page_result client s a w)
  unfolding page_result
  page_result-Page s m (ok page) w w' at e = record {
    fewer = λ _. rw at (
        pages_left-lt m page.next_marker
          (λ next n. ends s.durable_execution_arn m next w' page e n));
    last = λ h. absurd (ground arith);
    valid = λ v. record {
      filed = insert_all-Filed page.operations s.operations v.filed;
      one_each = insert_all-Distinct page.operations s.operations v.one_each;
      replayed_once = v.replayed_once;
    };
  }
  page_result-Page s m (err x) w w' at e = record {
    fewer = λ h. absurd (ground arith);
    last = λ h. absurd (ground arith);
    valid = λ v. v;
  }

  load_page-Page :
      (n : Option String) (s : ExecutionState) (w : S)
      → s.next_marker ≡ n
      → (r : Run Bool S) × (load_page client n s w ≡ some r) × Page s r
  unfolding load_page
  load_page-Page none s w at = (
    (ok false, s, w),
    refl,
    record { fewer = λ h. absurd (ground arith); last = λ _. at; valid = λ v. v },
  )
  load_page-Page (some m) s w at =
      let call = client.get_operations s.durable_execution_arn m in
      let (k, end) = with_retry_ends call w in
      let (w', same) = nth_call-eq call k w in
      (
        page_result client s (nth_call call k w).0 (nth_call call k w).1,
        ap (after_page client s) end.outcome,
        page_result-Page s m (nth_call call k w).0 (nth_call call k w).1 w' at
            (ap (λ r. r.0) (sym same)),
      )

  -- The loop came to an end.
  abbrev pub Loaded : ExecutionState → Option (Run (Unit {0}) S) → Type 0
  Loaded s o =
      (r : Run (Unit {0}) S) × (o ≡ some r)
      × (r.0 ≡ ok tt → r.1.next_marker ≡ none)
      × (IsValid s → IsValid r.1)

  after_more-Loaded :
      (again : ExecutionState → S → Option (Run (Unit {0}) S)) (s : ExecutionState) (r : Run Bool S)
      → Page s r
      → (r.0 ≡ ok true → Loaded r.1 (again r.1 r.2))
      → Loaded s (after_more client again (some r))
  unfolding after_more
  after_more-Loaded again s (ok true, t, w) p more =
      let (r, e, done, valid) = more refl in (r, e, done, λ v. valid (p.valid v))
  after_more-Loaded again s (ok false, t, w) p more =
      ((ok tt, t, w), refl, λ _. p.last refl, p.valid)
  after_more-Loaded again s (err e, t, w) p more =
      ((err e, t, w), refl, λ h. absurd (ground arith), p.valid)

  -- If each page's marker ranks below the one that asked for it, loading ends within as many
  -- rounds as pages can be left: it answers, a success leaves no page to load, and a well-formed
  -- state stays well formed.
  pub load_all_ends :
      (fuel : ℕ) (s : ExecutionState) (w : S)
      → pages_left rank s.next_marker < fuel
      → Loaded s (load_all_operations client fuel s w)
  unfolding load_all_operations load_more_operations
  load_all_ends zero s w h = absurd (omega arith)
  load_all_ends (suc fuel) s w h =
      let (r, e, p) = load_page-Page s.next_marker s w refl in
      rw e (
        after_more-Loaded (load_all_operations client fuel) s r p
          (λ t. load_all_ends fuel r.1 r.2 (omega (arith, p.fewer t))))
