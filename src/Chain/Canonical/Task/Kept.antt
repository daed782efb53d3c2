-- ===== src/Chain/Canonical/Task/Kept.antt =====
-- Every round of a canonicalization task keeps the task's invariant, and none panics.
use bdk.Prelude.{
  ℕ, ◌≤◌, ◌<◌, ◌≡◌, refl, sym, subst, ap, ◌||◌, Option, none, some, List, [], ◌∷◌, ◌++◌, map,
  length, All, get_last?, and_then, ◌⊎◌, arith, Bool-cases, Option-cases, inl, inr,
}
use bdk.Core.ChainQuery.{ChainRequest, ChainResponse}
use bdk.Chain.Tx.{Transaction}
use bdk.Chain.TxGraph.{Anchor, TxGraph, TxNode, get_tx, get_tx_node, is_evicted}
use bdk.Chain.TxGraph.Insert.Index.{AreIds}
use bdk.Chain.Canonical.Reason.{
  CanonicalReason, block, mempool, new_assumed, from_anchor, from_observed_in,
}
use bdk.Chain.Canonical.Mark.{Marks}
use bdk.Chain.Canonical.Mark.Kept.{IsKnown, IsMarks, mark_canonical-IsMarks}
use bdk.Chain.Canonical.Task.{
  CanonicalTask, CanonicalStage, assumed_txs, anchored_txs, seen_txs, left_over_txs,
  is_canonicalized, mark_new, run_assumed, run_seen, run_leftover, next_leftover, next_seen,
  ask_front, next_anchored, next_in, next_query, resolve_front, resolve_anchored, resolve_in,
  resolve_query, finished, find_anchor,
}

module _ {A : Type 0} (anchor : Anchor A) (graph : TxGraph A) where
  -- A queued transaction is the one of the graph under its id.
  abbrev pub IsQueued : ℕ → Transaction → Type 0
  IsQueued txid tx = IsKnown graph tx × (get_tx graph txid ≡ some tx)

  abbrev pub HasLast : List A → Type 0
  HasLast anchors = (last : A) × (get_last? anchors ≡ some last)

  pub record IsTask (t : CanonicalTask A) : Type 0 where
    pub marked : IsMarks graph t.marks
    pub assumed : All (λ (e : ℕ × Transaction). IsQueued e.0 e.1) t.unprocessed_assumed_txs
    pub anchored :
        All
          (λ (e : ℕ × (Transaction × List A)). IsQueued e.0 e.1.0 × HasLast e.1.1)
          t.unprocessed_anchored_txs
    pub seen : All (λ (e : ℕ × (Transaction × ℕ)). IsQueued e.0 e.1.0) t.unprocessed_seen_txs
    pub leftover :
        All (λ (e : ℕ × (Transaction × ℕ)). IsQueued e.0 e.1.0) t.unprocessed_leftover_txs

  mark_new-IsMarks :
      (self : Marks A) (txid : ℕ) (tx : Transaction) (reason : CanonicalReason A)
      → AreIds graph
      → IsKnown graph tx
      → IsMarks graph self
      → IsMarks graph (mark_new anchor graph self txid tx reason)
  unfolding mark_new
  mark_new-IsMarks self txid tx reason ids k h = elim (Bool-cases (is_canonicalized self txid)) [
    | inl e ↦ rw (mark_new, e) h
    | inr e ↦ rw (mark_new, e) (mark_canonical-IsMarks graph self txid tx reason ids k h)
  ]

  run_assumed-IsMarks :
      (q : List (ℕ × Transaction)) (self : Marks A)
      → AreIds graph
      → All (λ (e : ℕ × Transaction). IsQueued e.0 e.1) q
      → IsMarks graph self
      → IsMarks graph (run_assumed anchor graph q self)
  unfolding run_assumed
  run_assumed-IsMarks [] self ids a h = h
  run_assumed-IsMarks ((txid, tx) ∷ q) self ids a h =
      run_assumed-IsMarks q (mark_new anchor graph self txid tx new_assumed) ids a.1
        (mark_new-IsMarks self txid tx new_assumed ids a.0.0 h)

  run_seen-IsMarks :
      (q : List (ℕ × (Transaction × ℕ))) (self : Marks A)
      → AreIds graph
      → All (λ (e : ℕ × (Transaction × ℕ)). IsQueued e.0 e.1.0) q
      → IsMarks graph self
      → IsMarks graph (run_seen anchor graph q self)
  unfolding run_seen
  run_seen-IsMarks [] self ids a h = h
  run_seen-IsMarks ((txid, (tx, t)) ∷ q) self ids a h =
      run_seen-IsMarks q (mark_new anchor graph self txid tx (from_observed_in (mempool t))) ids a.1
        (mark_new-IsMarks self txid tx (from_observed_in (mempool t)) ids a.0.0 h)

  node_found :
      (txid : ℕ) (tx : Transaction)
      → get_tx graph txid ≡ some tx
      → (node : TxNode A) × (get_tx_node graph txid ≡ some node)
  unfolding get_tx
  node_found txid tx h = elim (Option-cases (get_tx_node graph txid)) [
    | inl e ↦ ground (arith, h, e)
    | inr (node, e) ↦ (node, e)
  ]

  run_leftover-IsMarks :
      (q : List (ℕ × (Transaction × ℕ))) (self : Marks A)
      → AreIds graph
      → All (λ (e : ℕ × (Transaction × ℕ)). IsQueued e.0 e.1.0) q
      → IsMarks graph self
      → (out : Marks A) × ((run_leftover anchor graph q self ≡ some out) × IsMarks graph out)
  unfolding run_leftover
  run_leftover-IsMarks [] self ids a h = (self, (refl, h))
  run_leftover-IsMarks ((txid, (tx, height)) ∷ q) self ids a h =
      let (node, e) = node_found txid tx a.0.1 in
      elim (Bool-cases (tx.is_coinbase || is_evicted node)) [
        | inl b ↦
            let (out, (eq, m)) = run_leftover-IsMarks q self ids a.1 h in
            (out, (rw (run_leftover, e, b) eq, m))
        | inr b ↦
            let next = mark_new anchor graph self txid tx (from_observed_in (block height)) in
            let (out, (eq, m)) =
              run_leftover-IsMarks q next ids a.1
                (mark_new-IsMarks self txid tx (from_observed_in (block height)) ids a.0.0 h) in
            (out, (rw (run_leftover, e, b) eq, m))
      ]

  -- A round's result: the invariant, and, if it asks, a queue of anchored transactions that is not
  -- empty and not longer.
  abbrev pub IsRound : CanonicalTask A → CanonicalTask A × Option ChainRequest → Type 0
  IsRound t out =
      IsTask out.0
      × ((out.1 ≡ none)
          ⊎ ((request : ChainRequest) × ((out.1 ≡ some request)
                × ((out.0.current_stage ≡ anchored_txs)
                    × ((0 < length out.0.unprocessed_anchored_txs)
                        × (length out.0.unprocessed_anchored_txs
                            ≤ length t.unprocessed_anchored_txs))))))

  abbrev pub HasRound : CanonicalTask A → Option (CanonicalTask A × Option ChainRequest) → Type 0
  HasRound t o = (out : CanonicalTask A × Option ChainRequest) × ((o ≡ some out) × IsRound t out)

  next_leftover-HasRound :
      (t : CanonicalTask A) → AreIds graph → IsTask t → HasRound t (next_leftover anchor graph t)
  unfolding next_leftover
  next_leftover-HasRound t ids h =
      let (out, (eq, m)) =
        run_leftover-IsMarks t.unprocessed_leftover_txs t.marks ids h.leftover h.marked in
      (
        (record t { unprocessed_leftover_txs = []; marks = out; current_stage = finished }, none),
        (
          rw (next_leftover, eq) refl,
          (
            record {
              marked = m;
              assumed = h.assumed;
              anchored = h.anchored;
              seen = h.seen;
              leftover = tt;
            },
            inl refl,
          ),
        ),
      )

  next_seen-HasRound :
      (t : CanonicalTask A) → AreIds graph → IsTask t → HasRound t (next_seen anchor graph t)
  unfolding next_seen
  next_seen-HasRound t ids h =
      next_leftover-HasRound
        (record t {
          unprocessed_seen_txs = [];
          marks = run_seen anchor graph t.unprocessed_seen_txs t.marks;
          current_stage = left_over_txs;
        })
        ids
        (record {
          marked = run_seen-IsMarks t.unprocessed_seen_txs t.marks ids h.seen h.marked;
          assumed = h.assumed;
          anchored = h.anchored;
          seen = tt;
          leftover = h.leftover;
        })

  ask_front-HasRound :
      (t : CanonicalTask A) (q : List (ℕ × (Transaction × List A)))
      → AreIds graph
      → t.current_stage ≡ anchored_txs
      → t.unprocessed_anchored_txs ≡ q
      → IsTask t
      → HasRound t (ask_front anchor graph t q)
  unfolding ask_front
  ask_front-HasRound t [] ids at e h =
      next_seen-HasRound (record t { current_stage = seen_txs }) ids
        (record {
          marked = h.marked;
          assumed = h.assumed;
          anchored = h.anchored;
          seen = h.seen;
          leftover = h.leftover;
        })
  ask_front-HasRound t ((txid, (tx, anchors)) ∷ rest) ids at e h = (
    (t, some (map anchor.anchor_block anchors)),
    (
      refl,
      (
        h,
        inr (
          map anchor.anchor_block anchors,
          (refl, (at, (omega (arith, ap length e), omega arith))),
        ),
      ),
    ),
  )

  next_anchored-HasRound :
      (t : CanonicalTask A)
      → AreIds graph
      → t.current_stage ≡ anchored_txs
      → IsTask t
      → HasRound t (next_anchored anchor graph t)
  unfolding next_anchored
  next_anchored-HasRound t ids at h = ask_front-HasRound t t.unprocessed_anchored_txs ids at refl h

  next_in-HasRound :
      (s : CanonicalStage) (t : CanonicalTask A)
      → AreIds graph
      → t.current_stage ≡ s
      → IsTask t
      → HasRound t (next_in anchor graph s t)
  unfolding next_in
  next_in-HasRound assumed_txs t ids e h =
      next_anchored-HasRound
        (record t {
          unprocessed_assumed_txs = [];
          marks = run_assumed anchor graph t.unprocessed_assumed_txs t.marks;
          current_stage = anchored_txs;
        })
        ids refl
        (record {
          marked = run_assumed-IsMarks t.unprocessed_assumed_txs t.marks ids h.assumed h.marked;
          assumed = tt;
          anchored = h.anchored;
          seen = h.seen;
          leftover = h.leftover;
        })
  next_in-HasRound anchored_txs t ids e h = next_anchored-HasRound t ids e h
  next_in-HasRound seen_txs t ids e h = next_seen-HasRound t ids h
  next_in-HasRound left_over_txs t ids e h = next_leftover-HasRound t ids h
  next_in-HasRound finished t ids e h = ((t, none), (refl, (h, inl refl)))

  -- A round of a task that satisfies the invariant returns: it does not panic, it keeps the
  -- invariant, and what it asks is about a transaction that is left.
  pub next_query-HasRound :
      (t : CanonicalTask A) → AreIds graph → IsTask t → HasRound t (next_query anchor graph t)
  unfolding next_query
  next_query-HasRound t ids h = next_in-HasRound t.current_stage t ids refl h

  All-snoc :
      (q : List (ℕ × (Transaction × ℕ))) (e : ℕ × (Transaction × ℕ))
      → All (λ (x : ℕ × (Transaction × ℕ)). IsQueued x.0 x.1.0) q
      → IsQueued e.0 e.1.0
      → All (λ (x : ℕ × (Transaction × ℕ)). IsQueued x.0 x.1.0) (q ++ (e ∷ []))
  All-snoc [] e a k = (k, tt)
  All-snoc (x ∷ q) e a k = (a.0, All-snoc q e a.1 k)

  -- The result of an answer: the invariant, and one anchored transaction less.
  abbrev pub HasAnswer : CanonicalTask A → Option (CanonicalTask A) → Type 0
  HasAnswer t o =
      (out : CanonicalTask A) × ((o ≡ some out)
        × (IsTask out × (length out.unprocessed_anchored_txs < length t.unprocessed_anchored_txs)))

  resolve_front-IsTask :
      (t : CanonicalTask A) (txid : ℕ) (tx : Transaction) (anchors : List A)
      (response : ChainResponse)
      → AreIds graph
      → IsQueued txid tx
      → HasLast anchors
      → IsTask t
      → (out : CanonicalTask A) × ((resolve_front anchor graph t txid tx anchors response
            ≡ some out)
          × (IsTask out × (out.unprocessed_anchored_txs ≡ t.unprocessed_anchored_txs)))
  unfolding resolve_front
  resolve_front-IsTask t txid tx anchors response ids k (last, l) h =
      elim (Option-cases
        (and_then response (λ block_id. find_anchor anchor graph block_id anchors))) [
          | inl e ↦ (
            record t {
              unprocessed_leftover_txs =
                  t.unprocessed_leftover_txs
                  ++ ((txid, (tx, anchor.confirmation_height_upper_bound last)) ∷ []);
            },
            (
              rw (resolve_front, e, l) refl,
              (
                record {
                  marked = h.marked;
                  assumed = h.assumed;
                  anchored = h.anchored;
                  seen = h.seen;
                  leftover =
                      All-snoc t.unprocessed_leftover_txs
                        (txid, (tx, anchor.confirmation_height_upper_bound last)) h.leftover k;
                },
                refl,
              ),
            ),
          )
          | inr (best, e) ↦ (
            record t { marks = mark_new anchor graph t.marks txid tx (from_anchor best) },
            (
              rw (resolve_front, e) refl,
              (
                record {
                  marked = mark_new-IsMarks t.marks txid tx (from_anchor best) ids k.0 h.marked;
                  assumed = h.assumed;
                  anchored = h.anchored;
                  seen = h.seen;
                  leftover = h.leftover;
                },
                refl,
              ),
            ),
          )
        ]

  resolve_anchored-HasAnswer :
      (t : CanonicalTask A) (q : List (ℕ × (Transaction × List A))) (response : ChainResponse)
      → AreIds graph
      → t.unprocessed_anchored_txs ≡ q
      → 0 < length q
      → All (λ (x : ℕ × (Transaction × List A)). IsQueued x.0 x.1.0 × HasLast x.1.1) q
      → IsTask t
      → HasAnswer t (resolve_anchored anchor graph t q response)
  unfolding resolve_anchored
  resolve_anchored-HasAnswer t [] response ids e some_left all h = ground (arith, some_left)
  resolve_anchored-HasAnswer t ((txid, (tx, anchors)) ∷ rest) response ids e some_left all h =
      let (out, (eq, (m, same))) =
        resolve_front-IsTask (record t { unprocessed_anchored_txs = rest }) txid tx anchors response
          ids all.0.0 all.0.1
          (record {
            marked = h.marked;
            assumed = h.assumed;
            anchored = all.1;
            seen = h.seen;
            leftover = h.leftover;
          }) in
      (out, (eq, (m, omega (arith, ap length same, ap length e))))

  -- An answer to what a task asks returns: it does not panic, it keeps the invariant, and one
  -- anchored transaction less is left.
  pub resolve_query-HasAnswer :
      (t : CanonicalTask A) (response : ChainResponse)
      → AreIds graph
      → t.current_stage ≡ anchored_txs
      → 0 < length t.unprocessed_anchored_txs
      → IsTask t
      → HasAnswer t (resolve_query anchor graph t response)
  unfolding resolve_query resolve_in
  resolve_query-HasAnswer t response ids at some_left h =
      subst (λ s. HasAnswer t (resolve_in anchor graph s t response)) (sym at)
        (resolve_anchored-HasAnswer t t.unprocessed_anchored_txs response ids refl some_left
          h.anchored h)
