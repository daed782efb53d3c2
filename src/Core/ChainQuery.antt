-- ===== src/Core/ChainQuery.antt =====
-- `ChainQuery` of `crates/core/src/chain_query.rs`: an algorithm that asks a chain source which of
-- some blocks is in the chain. An operation that can panic returns an option.
use bdk.Prelude.{Option, List}
use bdk.Core.BlockId.{BlockId}

abbrev pub ChainRequest : Type 0
ChainRequest = List BlockId

abbrev pub ChainResponse : Type 0
ChainResponse = Option BlockId

pub record ChainQuery (Q Output : Type 0) : Type 0 where
  pub tip : Q → BlockId
  pub next_query : Q → Option (Q × Option ChainRequest)
  pub resolve_query : Q → ChainResponse → Option Q
  pub finish : Q → Output
