-- ===== src/Chain/Canonical/Reason.antt =====
-- `ObservedIn` and `CanonicalReason` of `crates/chain/src/canonical_task.rs`.
use bdk.Prelude.{ℕ, Bool, true, false, Option, none, some}

pub data ObservedIn : Type 0 where
  block : ℕ → ObservedIn
  mempool : ℕ → ObservedIn

pub data CanonicalReason (A : Type 0) : Type 0 where
  assumed : Option ℕ → CanonicalReason A
  anchored : A → Option ℕ → CanonicalReason A
  observed_in : ObservedIn → Option ℕ → CanonicalReason A

module _ {A : Type 0} where
  abbrev pub new_assumed : CanonicalReason A
  new_assumed = assumed none

  abbrev pub from_anchor : A → CanonicalReason A
  from_anchor anchor = anchored anchor none

  abbrev pub from_observed_in : ObservedIn → CanonicalReason A
  from_observed_in observed = observed_in observed none

  abbrev pub to_transitive : CanonicalReason A → ℕ → CanonicalReason A
  to_transitive (assumed d) descendant = assumed (some descendant)
  to_transitive (anchored anchor d) descendant = anchored anchor (some descendant)
  to_transitive (observed_in observed d) descendant = observed_in observed (some descendant)

  abbrev pub descendant : CanonicalReason A → Option ℕ
  descendant (assumed d) = d
  descendant (anchored anchor d) = d
  descendant (observed_in observed d) = d

  pub is_transitive : CanonicalReason A → Bool
  is_transitive self = elim (descendant self) [ none ↦ false | some d ↦ true ]

  pub is_assumed : CanonicalReason A → Bool
  is_assumed (assumed d) = true
  is_assumed _ = false
