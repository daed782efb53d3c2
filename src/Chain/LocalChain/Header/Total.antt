-- ===== src/Chain/LocalChain/Header/Total.antt =====
-- The assertions of `apply_header_connected_to` and `apply_header` of
-- `crates/chain/src/local_chain.rs` do not fail.
use bdk.Prelude.{
  ℕ, ◌-◌, ◌<◌, ◌≡◌, ◌≢◌, refl, sym, ap, ◌∙◌, Bool, Option, none, some, List, [], ◌∷◌, arith, ltb,
  ltb→le, le→ltb, subst, Bool-cases, inl, inr, Result, ok, err, map_err,
}
use bdk.Core.BlockId.{BlockHash, BlockId}
use bdk.Core.Checkpoint.{CheckPoint, height}
use bdk.Core.Checkpoint.Build.Laws.{height-push}
use bdk.Core.Checkpoint.Build.Rebuild.{push-ok, extend_pushed}
use bdk.Core.Checkpoint.Build.{from_blocks, extend, new}
use bdk.Chain.ChangeSet.{ChangeSet}
use bdk.Chain.LocalChain.{LocalChain}
use bdk.Chain.LocalChain.Merge.{CannotConnectError, apply_update}
use bdk.Chain.LocalChain.Header.{
  blockhash_to_blockhash, Header, ApplyHeaderError, cannot_connect_header, prev_block,
  is_some_block, connection, update_blocks, own_connection, apply_header_connected_to, apply_header,
}

abbrev Ascends : ℕ → List (ℕ × BlockHash) → Type 0
Ascends n [] = Unit
Ascends n ((h, d) ∷ rest) = (n < h) × Ascends h rest

-- Block hashes at ascending heights make a chain.
extend-ok :
    (c : CheckPoint BlockHash) (blocks : List (ℕ × BlockHash))
    → Ascends (height c) blocks
    → (c' : CheckPoint BlockHash) × (extend c blocks ≡ ok c')
unfolding extend
extend-ok c [] a = (c, refl)
extend-ok c ((h, d) ∷ rest) a =
    let (c₁, p) = push-ok c h d a.0 refl in
    let (c', e) = extend-ok c₁ rest (subst (λ n. Ascends n rest) (sym (height-push c h d p)) a.1) in
    (c', extend_pushed c c₁ h d rest p ∙ e)

from_blocks-ok :
    (h : ℕ) (d : BlockHash) (rest : List (ℕ × BlockHash))
    → Ascends h rest
    → (c' : CheckPoint BlockHash) × (from_blocks ((h, d) ∷ rest) ≡ ok c')
unfolding from_blocks new
from_blocks-ok h d rest a = let (c', e) = extend-ok (new h d) rest a in (c', ap (map_err some) e)

connection-lt :
    (header : Header) (h : ℕ) (conn b : BlockId)
    → connection header h conn ≡ ok (some b)
    → b.height < h - 1
unfolding connection
connection-lt header h conn b e = ground arith

update_blocks-ok :
    (header : Header) (h : ℕ) (o : Option BlockId)
    → ((b : BlockId) → o ≡ some b → b.height < h - 1)
    → (c' : CheckPoint BlockHash) × (from_blocks (update_blocks header h o) ≡ ok c')
unfolding update_blocks prev_block
update_blocks-ok header h none l = elim (Bool-cases (ltb h 1)) [
  | inl zero_height ↦ rw zero_height (from_blocks-ok h header.block_hash [] tt)
  | inr above ↦ rw above (
      from_blocks-ok (h - 1) header.prev_blockhash ((h, header.block_hash) ∷ [])
        (omega (arith, ltb→le h 1 above), tt))
]
update_blocks-ok header h (some b) l =
    let low : b.height < h - 1 = l b refl in
    rw (le→ltb h 1 (omega arith)) (
      from_blocks-ok b.height b.hash ((h - 1, header.prev_blockhash) ∷ (h, header.block_hash) ∷ [])
        (low, (omega arith, tt)))

module _ (eq_ptr : CheckPoint BlockHash → CheckPoint BlockHash → Bool) (self : LocalChain BlockHash)
    (header : Header) (h : ℕ) where
  connected_by :
      (connected_to : BlockId) (o : Option BlockId) (update : CheckPoint BlockHash)
      → connection header h connected_to ≡ ok o
      → from_blocks (update_blocks header h o) ≡ ok update
      → apply_header_connected_to eq_ptr self header h connected_to
        ≡ some (map_err cannot_connect_header (apply_update eq_ptr self update))
  unfolding apply_header_connected_to
  connected_by connected_to o update c made = rw (c, made, apply_header_connected_to)

  connected :
      (connected_to : BlockId) (o : Option BlockId)
      → connection header h connected_to ≡ ok o
      → (r : Result (LocalChain BlockHash × ChangeSet BlockHash) CannotConnectError)
        × (apply_header_connected_to eq_ptr self header h connected_to
            ≡ some (map_err cannot_connect_header r))
  connected connected_to o c =
      let (update, made) =
        update_blocks-ok header h o
          (λ b same. connection-lt header h connected_to b (c ∙ ap ok same)) in
      (apply_update eq_ptr self update, connected_by connected_to o update c made)

  inconsistent :
      (connected_to : BlockId) (e : ApplyHeaderError)
      → connection header h connected_to ≡ err e
      → apply_header_connected_to eq_ptr self header h connected_to ≡ some (err e)
  unfolding apply_header_connected_to
  inconsistent connected_to e c = rw (c, apply_header_connected_to)

  -- A header at any height, with any block to connect to, does not make
  -- `apply_header_connected_to` panic.
  pub apply_header_connected_to-ne-none :
      (connected_to : BlockId) → apply_header_connected_to eq_ptr self header h connected_to ≢ none
  apply_header_connected_to-ne-none connected_to = go (connection header h connected_to) refl
    where
      go :
          (r : Result (Option BlockId) ApplyHeaderError)
          → connection header h connected_to ≡ r
          → apply_header_connected_to eq_ptr self header h connected_to ≢ none
      go (err e) c p = cc (inconsistent connected_to e c)
      go (ok o) c p = cc ((connected connected_to o c).1)

  connection-own : connection header h (own_connection header h) ≡ ok none
  unfolding connection prev_block is_some_block
  connection-own = ground arith

  -- A header at any height does not make `apply_header` panic.
  pub apply_header-ne-none : apply_header eq_ptr self header h ≢ none
  unfolding apply_header
  apply_header-ne-none p =
      let (r, same) = connected (own_connection header h) none connection-own in go r same p
    where
      go :
          (r : Result (LocalChain BlockHash × ChangeSet BlockHash) CannotConnectError)
          → apply_header_connected_to eq_ptr self header h (own_connection header h)
            ≡ some (map_err cannot_connect_header r)
          → apply_header eq_ptr self header h ≡ none
          → ⊥
      go (ok x) same p = cc (rw (same, apply_header) at p)
      go (err x) same p = cc (rw (same, apply_header) at p)
