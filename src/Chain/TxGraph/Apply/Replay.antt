-- ===== src/Chain/TxGraph/Apply/Replay.antt =====
-- The times of a graph that is built from the change set of another.
use Prim.Native.Nat.{Ordering}
use bdk.Prelude.{
  ℕ, ◌≡◌, refl, sym, ap, ◌∙◌, true, Option, none, some, List, [], ◌∷◌, ◌==◌, ==_iff, if◌then◌else◌,
  arith, Bool-cases, inl, inr,
}
use bdk.Prelude.BtreeMap
use bdk.Prelude.BtreeMap.{BtreeMap, IsSorted}
use bdk.Chain.Tx.{OutPoint, TxOut, Transaction}
use bdk.Chain.TxGraph.{TxGraph, Anchor, empty}
use bdk.Chain.TxGraph.ChangeSet.{ChangeSet, entries}
use bdk.Chain.TxGraph.Insert.{insert_tx, insert_txout, update_whole}
use bdk.Chain.TxGraph.Seen.{update_first_seen, update_last_seen, insert_evicted_at}
use bdk.Chain.TxGraph.Seen.Laws.{
  earliest, latest, update_first_seen-get, update_last_seen-get, insert_evicted_at-get,
  IsSeenIndexed, update_last_seen-IsSeenIndexed,
}
use bdk.Chain.TxGraph.Apply.{
  insert_anchor, insert_seen_at, each, see, evict, add_anchor, add_txout, initial_changeset,
  apply_changeset, from_changeset,
}

-- The three maps of times.
pub record Times : Type 0 where
  pub first_seen : BtreeMap ℕ
  pub last_seen : BtreeMap ℕ
  pub last_evicted : BtreeMap ℕ

-- What a fold of `comb` over the entry of a map leaves.
abbrev pub after : (Option ℕ → ℕ → ℕ) → Option ℕ → Option ℕ → Option ℕ
after comb old none = old
after comb old (some t) = some (comb old t)

after-none :
    (comb : Option ℕ → ℕ → ℕ) (o : Option ℕ) → ((t : ℕ) → comb none t ≡ t) → after comb none o ≡ o
after-none comb none h = refl
after-none comb (some t) h = ap some (h t)

absent :
    (i k : ℕ) (m : BtreeMap ℕ) → BtreeMap.IsAbove k m → (i == k) ≡ true → BtreeMap.get i m ≡ none
absent i k m up e = rw ((==_iff i k).0 e) (BtreeMap.get_self-IsAbove k m up)

module _ {A : Type 0} where
  abbrev pub times : TxGraph A → Times
  times g = record {
    first_seen = g.first_seen;
    last_seen = g.last_seen;
    last_evicted = g.last_evicted;
  }

  insert_tx-times : (g : TxGraph A) (tx : Transaction) → times (insert_tx g tx).0 ≡ times g
  unfolding insert_tx update_whole
  insert_tx-times g tx = ground arith

  insert_txout-times : (g : TxGraph A) (x : OutPoint × TxOut) → times (add_txout g x).0 ≡ times g
  unfolding insert_txout
  insert_txout-times g x = ground arith

  insert_anchor-times :
      (anchor : Anchor A) (g : TxGraph A) (x : A × ℕ) → times (add_anchor anchor g x).0 ≡ times g
  unfolding insert_anchor
  insert_anchor-times anchor g x = ground arith

  -- An operation that keeps a part of the graph, on each of a list.
  kept :
      {X V : Type 0} (op : TxGraph A → X → TxGraph A × ChangeSet A) (part : TxGraph A → V)
      (keeps : (g : TxGraph A) (x : X) → part (op g x).0 ≡ part g) (g : TxGraph A) (xs : List X)
      → part (each op g xs) ≡ part g
  unfolding each
  kept op part keeps g [] = refl
  kept op part keeps g (x ∷ xs) = kept op part keeps (op g x).0 xs ∙ keeps g x

  -- An operation on one entry of a map of times, on each of a sorted list.
  get-each :
      (op : TxGraph A → ℕ × ℕ → TxGraph A × ChangeSet A) (field : TxGraph A → BtreeMap ℕ)
      (comb : Option ℕ → ℕ → ℕ)
      (sets : (g : TxGraph A) (k v i : ℕ)
        → BtreeMap.get i (field (op g (k, v)).0)
          ≡ (if i == k then some (comb (BtreeMap.get k (field g)) v) else BtreeMap.get i (field g)))
      (g : TxGraph A) (m : BtreeMap ℕ) (i : ℕ)
      → IsSorted m
      → BtreeMap.get i (field (each op g m))
        ≡ after comb (BtreeMap.get i (field g)) (BtreeMap.get i m)
  unfolding each BtreeMap.get
  get-each op field comb sets g [] i s = refl
  get-each op field comb sets g ((k, v) ∷ m) i s = elim (Bool-cases (i == k)) [
    | inl e ↦
        get-each op field comb sets (op g (k, v)).0 m i s.1
        ∙ ap (after comb (BtreeMap.get i (field (op g (k, v)).0))) (absent i k m s.0 e)
        ∙ (rw e at (sets g k v i))
        ∙ rw e (ap (λ j. some (comb (BtreeMap.get j (field g)) v)) (sym ((==_iff i k).0 e)))
    | inr e ↦
        get-each op field comb sets (op g (k, v)).0 m i s.1
        ∙ ap (λ o. after comb o (BtreeMap.get i m)) (rw e at (sets g k v i))
        ∙ rw e refl
  ]

  update_first_seen-last :
      (g : TxGraph A) (k v : ℕ)
      → ((update_first_seen g k v).0.last_seen ≡ g.last_seen)
        × ((update_first_seen g k v).0.txs_by_last_seen ≡ g.txs_by_last_seen)
  unfolding update_first_seen
  update_first_seen-last g k v = (ground arith, ground arith)

  update_last_seen-first :
      (g : TxGraph A) (k v : ℕ) → (update_last_seen g k v).0.first_seen ≡ g.first_seen
  unfolding update_last_seen
  update_last_seen-first g k v = ground arith

  see-last_evicted :
      (g : TxGraph A) (k v : ℕ)
      → (update_last_seen (update_first_seen g k v).0 k v).0.last_evicted ≡ g.last_evicted
  unfolding update_first_seen update_last_seen
  see-last_evicted g k v = ground arith

  evict-seen :
      (g : TxGraph A) (x : ℕ × ℕ)
      → ((evict g x).0.first_seen ≡ g.first_seen) × ((evict g x).0.last_seen ≡ g.last_seen)
  unfolding insert_evicted_at
  evict-seen g (k, v) = (ground arith, ground arith)

  module _ (anchor : Anchor A) (cmp_tx : Transaction → Transaction → Ordering) where
    see-last_seen :
        (g : TxGraph A) (k v i : ℕ)
        → BtreeMap.get i (see anchor cmp_tx g (k, v)).0.last_seen ≡ (
            if i == k
            then some (latest (BtreeMap.get k g.last_seen) v)
            else BtreeMap.get i g.last_seen)
    unfolding insert_seen_at
    see-last_seen g k v i =
        update_last_seen-get (update_first_seen g k v).0 k v i
        ∙ rw (update_first_seen-last g k v).0 refl

    see-first_seen :
        (g : TxGraph A) (k v i : ℕ)
        → BtreeMap.get i (see anchor cmp_tx g (k, v)).0.first_seen ≡ (
            if i == k
            then some (earliest (BtreeMap.get k g.first_seen) v)
            else BtreeMap.get i g.first_seen)
    unfolding insert_seen_at
    see-first_seen g k v i =
        ap (BtreeMap.get i) (update_last_seen-first (update_first_seen g k v).0 k v)
        ∙ update_first_seen-get g k v i

    -- A transaction seen at a time has the earliest and the latest of its times, other
    -- transactions keep theirs, and the index by time stays exact.
    pub insert_seen_at-times :
        (g : TxGraph A) (k v i : ℕ)
        → IsSeenIndexed g
        → (BtreeMap.get i (insert_seen_at anchor cmp_tx g k v).0.first_seen ≡ (
            if i == k
            then some (earliest (BtreeMap.get k g.first_seen) v)
            else BtreeMap.get i g.first_seen))
          × ((BtreeMap.get i (insert_seen_at anchor cmp_tx g k v).0.last_seen ≡ (
                if i == k
                then some (latest (BtreeMap.get k g.last_seen) v)
                else BtreeMap.get i g.last_seen))
              × IsSeenIndexed (insert_seen_at anchor cmp_tx g k v).0)
    unfolding insert_seen_at
    insert_seen_at-times g k v i ix = (
      see-first_seen g k v i,
      (
        see-last_seen g k v i,
        update_last_seen-IsSeenIndexed (update_first_seen g k v).0 k v (λ t j.
            rw ((update_first_seen-last g k v).0, (update_first_seen-last g k v).1) (ix t j)),
      ),
    )

    see_keeps :
        (g : TxGraph A) (x : ℕ × ℕ) → (see anchor cmp_tx g x).0.last_evicted ≡ g.last_evicted
    unfolding insert_seen_at
    see_keeps g (k, v) = see-last_evicted g k v

    -- What a graph is before the times of a change set are replayed.
    replayed : TxGraph A → ChangeSet A → TxGraph A
    replayed g c =
        each (add_anchor anchor) (each add_txout (each insert_tx g c.txs) (entries c.txouts))
          c.anchors

    replayed-times : (g : TxGraph A) (c : ChangeSet A) → times (replayed g c) ≡ times g
    unfolding replayed
    replayed-times g c =
        kept (add_anchor anchor) times (insert_anchor-times anchor)
          (each add_txout (each insert_tx g c.txs) (entries c.txouts)) c.anchors
        ∙ kept add_txout times insert_txout-times (each insert_tx g c.txs) (entries c.txouts)
        ∙ kept insert_tx times insert_tx-times g c.txs

    seen_after : TxGraph A → ChangeSet A → TxGraph A
    seen_after g c = each (see anchor cmp_tx) (replayed g c) c.last_seen

    -- An applied change set: `last_seen` and `last_evicted` are the latest of the times there were
    -- and those of the change set; `first_seen` is the earliest of the times there were and the
    -- times of `last_seen` in the change set.
    pub apply_changeset-times :
        (g : TxGraph A) (c : ChangeSet A) (i : ℕ)
        → IsSorted c.last_seen
        → IsSorted c.last_evicted
        → (BtreeMap.get i (apply_changeset anchor cmp_tx g c).last_seen
            ≡ after latest (BtreeMap.get i g.last_seen) (BtreeMap.get i c.last_seen))
          × ((BtreeMap.get i (apply_changeset anchor cmp_tx g c).last_evicted
                ≡ after latest (BtreeMap.get i g.last_evicted) (BtreeMap.get i c.last_evicted))
              × (BtreeMap.get i (apply_changeset anchor cmp_tx g c).first_seen
                  ≡ after earliest (BtreeMap.get i g.first_seen) (BtreeMap.get i c.last_seen)))
    unfolding apply_changeset seen_after replayed
    apply_changeset-times g c i s z = (
      ap (BtreeMap.get i) (
            kept evict (λ t. t.last_seen) (λ h x. (evict-seen h x).1) (seen_after g c)
              c.last_evicted)
          ∙ get-each (see anchor cmp_tx) (λ h. h.last_seen) latest see-last_seen (replayed g c)
              c.last_seen i s
          ∙ ap
              (λ (t : Times).
                after latest (BtreeMap.get i t.last_seen) (BtreeMap.get i c.last_seen))
              (replayed-times g c),
      (
        get-each evict (λ h. h.last_evicted) latest insert_evicted_at-get (seen_after g c)
              c.last_evicted i z
            ∙ ap (λ o. after latest (BtreeMap.get i o) (BtreeMap.get i c.last_evicted))
                (kept (see anchor cmp_tx) (λ t. t.last_evicted) (λ h x. see_keeps h x)
                    (replayed g c) c.last_seen
                  ∙ ap (λ (t : Times). t.last_evicted) (replayed-times g c)),
        ap (BtreeMap.get i) (
              kept evict (λ t. t.first_seen) (λ h x. (evict-seen h x).0) (seen_after g c)
                c.last_evicted)
            ∙ get-each (see anchor cmp_tx) (λ h. h.first_seen) earliest see-first_seen
                (replayed g c) c.last_seen i s
            ∙ ap
                (λ (t : Times).
                  after earliest (BtreeMap.get i t.first_seen) (BtreeMap.get i c.last_seen))
                (replayed-times g c),
      ),
    )

    -- A graph that is built from the change set of another has its times of last seen and last
    -- evicted; where it says when a transaction was first seen, it says when the transaction was
    -- last seen.
    pub from_changeset-initial_changeset :
        (g : TxGraph A) (i : ℕ)
        → IsSorted g.last_seen
        → IsSorted g.last_evicted
        → (BtreeMap.get i
              (from_changeset anchor cmp_tx (initial_changeset anchor cmp_tx g)).last_seen
            ≡ BtreeMap.get i g.last_seen)
          × ((BtreeMap.get i
                  (from_changeset anchor cmp_tx (initial_changeset anchor cmp_tx g)).last_evicted
                ≡ BtreeMap.get i g.last_evicted)
              × (BtreeMap.get i
                    (from_changeset anchor cmp_tx (initial_changeset anchor cmp_tx g)).first_seen
                  ≡ BtreeMap.get i g.last_seen))
    unfolding from_changeset initial_changeset BtreeMap.get
    from_changeset-initial_changeset g i s z =
        let (last, (evicted, first)) =
          apply_changeset-times empty (initial_changeset anchor cmp_tx g) i s z in
        (
          last ∙ after-none latest (BtreeMap.get i g.last_seen) (λ t. refl),
          (
            evicted ∙ after-none latest (BtreeMap.get i g.last_evicted) (λ t. refl),
            first ∙ after-none earliest (BtreeMap.get i g.last_seen) (λ t. refl),
          ),
        )
