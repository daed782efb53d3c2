-- ===== src/Chains.antt =====
-- A chain of five headers with a gap below the tip, and updates of it.
use bdk.Prelude.{ℕ, ◌≡◌, refl, List, [], ◌∷◌, ok}
use bdk.Core.BlockId.{BlockId}
use bdk.Core.Checkpoint.{CheckPoint, base, link, skip_index, ancestor_by_index}
use bdk.Core.Checkpoint.Build.{new, push, extend}
use bdk.Core.Checkpoint.Build.Laws.{IsValid, new-IsValid, extend-IsValid}
use bdk.Chain.LocalChain.Header.{Header, header_to_blockhash}

abbrev pub header : ℕ → ℕ → Header
header hash prev = record { block_hash = hash; prev_blockhash = prev }

abbrev pub id : ℕ → ℕ → BlockId
id height hash = record { height = height; hash = hash }

abbrev pub blocks : List (ℕ × Header)
blocks = (1, header 101 100) ∷ (2, header 102 101) ∷ (3, header 103 102) ∷ (5, header 105 104) ∷ []

abbrev pub genesis : CheckPoint Header
genesis = base (id 0 100) (header 100 99)

abbrev pub block_1 : CheckPoint Header
block_1 = link (id 1 101) (header 101 100) genesis genesis 1

abbrev pub block_2 : CheckPoint Header
block_2 = link (id 2 102) (header 102 101) block_1 genesis 2

abbrev pub block_3 : CheckPoint Header
block_3 = link (id 3 103) (header 103 102) block_2 block_1 3

abbrev pub block_5 : CheckPoint Header
block_5 = link (id 5 105) (header 105 104) block_3 genesis 4

-- A reorganisation from height 3 up.
abbrev pub reorg : List (ℕ × Header)
reorg = (3, header 203 102) ∷ (4, header 204 203) ∷ []

abbrev pub other_3 : CheckPoint Header
other_3 = link (id 3 203) (header 203 102) block_2 block_1 3

abbrev pub other_4 : CheckPoint Header
other_4 = link (id 4 204) (header 204 203) other_3 genesis 4

pub genesis-IsValid : IsValid genesis
unfolding new
genesis-IsValid = new-IsValid 0 (header 100 99)

pub extend-blocks : extend genesis blocks ≡ ok block_5
unfolding extend push skip_index ancestor_by_index
extend-blocks = refl

pub extend-two : extend genesis ((1, header 101 100) ∷ (2, header 102 101) ∷ []) ≡ ok block_2
unfolding extend push skip_index ancestor_by_index
extend-two = refl

pub extend-reorg : extend block_2 reorg ≡ ok other_4
unfolding extend push skip_index ancestor_by_index
extend-reorg = refl

pub block_5-IsValid : IsValid block_5
block_5-IsValid = extend-IsValid genesis blocks genesis-IsValid extend-blocks

pub block_2-IsValid : IsValid block_2
block_2-IsValid =
    extend-IsValid genesis ((1, header 101 100) ∷ (2, header 102 101) ∷ []) genesis-IsValid
      extend-two

pub other_4-IsValid : IsValid other_4
other_4-IsValid = extend-IsValid block_2 reorg block_2-IsValid extend-reorg
