-- ===== src/Mweb/Leafset.antt =====
-- `MwebLeafset` of `crates/mweb/src/p2p.rs`, a bit for each leaf of the output PMMR, and the bound
-- of `crates/mweb/src/limits.rs`. Bytes are numbers below 256.
pub mod Bits
use bdk.Prelude.{
  ℕ, zero, suc, ◌+◌, ◌*◌, ◌-◌, ◌/◌, ◌%◌, ◌^◌, Bool, true, false, not, Option, none, some, List, [],
  ◌∷◌, ◌++◌, ◌==◌, length, get_elem?, bit_and, if◌then◌else◌,
}
use bdk.Core.BlockId.{BlockHash}

-- What a peer did wrong: the `BanReason` of an `Error::Peer`, without its message.
pub data PeerError : Type 0 where
  bad_proof protocol : PeerError

-- `Result<(), Error>`.
pub data Verdict : Type 0 where
  accepted : Verdict
  rejected : PeerError → Verdict

abbrev pub max_leafset_bytes : ℕ
max_leafset_bytes = 4000000

abbrev pub max_output_mmr_size : ℕ
max_output_mmr_size = max_leafset_bytes * 8

pub record MwebLeafset : Type 0 where
  pub block_hash : BlockHash
  pub leafset : List ℕ

-- `byte & (1 << (7 - bit)) != 0`.
abbrev pub bit_is_set : ℕ → ℕ → Bool
bit_is_set byte bit = not (bit_and byte (2 ^ (7 - bit)) == 0)

-- `bitset_test` of `crates/mweb/src/pmmr.rs`.
unfoldable pub bitset_test : List ℕ → ℕ → Bool
bitset_test leafset idx = elim (get_elem? leafset (idx / 8)) [
  | some b ↦ bit_is_set b (idx % 8)
  | none ↦ false
]

-- The loop over the bits of a byte, from `bit` on, with `left` bits to go.
byte_indices : ℕ → ℕ → ℕ → ℕ → List ℕ
byte_indices byte_i byte bit zero = []
byte_indices byte_i byte bit (suc left) =
    let rest = byte_indices byte_i byte (bit + 1) left in
    if bit_is_set byte bit then (byte_i * 8 + bit) ∷ rest else rest

-- The loop over the bytes, from the byte `byte_i` on.
indices_from : ℕ → List ℕ → List ℕ
unfolding byte_indices
indices_from byte_i [] = []
indices_from byte_i (byte ∷ bytes) = byte_indices byte_i byte 0 8 ++ indices_from (byte_i + 1) bytes

pub unspent_leaf_indices : MwebLeafset → List ℕ
unfolding indices_from
unspent_leaf_indices self = indices_from 0 self.leafset
