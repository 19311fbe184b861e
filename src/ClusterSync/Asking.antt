-- ===== src/ClusterSync/Asking.antt =====
-- api/src/services/cluster.rs: what one pass of the work queue of `handle_candidates_covering` leaves to
-- ask for.
use cluster_mempool_observer.Base.{
  ℕ, ◌<◌, ◌≤◌, Bool, true, false, not, ◌&&◌, ◌||◌, ◌≡◌, refl, ◌∙◌, ap, List, [], ◌∷◌, none, some,
  arith, Txid, TxSet, contains, contains-insert, insert, keep, length, ◌==◌, ◌⊎◌, Bool-cases, inl,
  inr, if◌then◌else◌,
}
use cluster_mempool_observer.Db.{ClusterChunk}
use cluster_mempool_observer.Membership.{chunk_txids}
use cluster_mempool_observer.Membership.Lookup.{find_active_ids_by_txids}
use cluster_mempool_observer.ClusterSync.{
  Outside, NodeAnswer, grouped, not_found, node_error, awaited, query,
}
use cluster_mempool_observer.ClusterSync.Upsert.{upsert}
use cluster_mempool_observer.FlushWrite.{extend}
use cluster_mempool_observer.ClusterSync.Queue.{
  Round, asserting_present, left_mempool, buffer, regroup, place, answered, ask_for,
}
use cluster_mempool_observer.ClusterSync.Detaching.{upsert-Holds, awaited-Holds}
use cluster_mempool_observer.ClusterSync.Holding.{Within, Holds, Within-append, Within-keep}

-- `getmempoolcluster` answers with the cluster that holds the transaction asked for.
abbrev pub AnswersHold : Outside → Type 0
AnswersHold o =
    (n : ℕ) (x : Txid) (chunks : List ClusterChunk)
    → o.get_mempool_cluster n x ≡ grouped chunks
    → (length (chunk_txids chunks) == 0) ≡ false
    → contains x (chunk_txids chunks) ≡ true

contains-extend :
    (x : Txid) (xs : List Txid) (s : TxSet)
    → contains x (extend xs s) ≡ (contains x xs || contains x s)
contains-extend x [] s = refl
contains-extend x (y ∷ ys) s =
    contains-extend x ys (insert y s)
    ∙ ap (λ b. contains x ys || b) (contains-insert x y s)
    ∙ swap (contains x ys) (x == y) (contains x s)
  where
    swap : (a b c : Bool) → (a || (b || c)) ≡ ((b || a) || c)
    swap a b c = ground arith

abbrev pub known : TxSet → TxSet → Txid → Bool
known universe out x = contains x universe || contains x out

-- What may still be asked for.
abbrev pub left : TxSet → List Txid → ℕ
left out universe = length (keep (λ y. not (contains y out)) universe)

left-≤ :
    (out out' : TxSet) (universe : List Txid)
    → ((y : Txid) → contains y out ≡ true → contains y out' ≡ true)
    → left out' universe ≤ left out universe
left-≤ out out' [] more = omega arith
left-≤ out out' (y ∷ ys) more = ground (arith, left-≤ out out' ys more, more y)

left-< :
    (x : Txid) (out out' : TxSet) (universe : List Txid)
    → ((y : Txid) → contains y out ≡ true → contains y out' ≡ true)
    → contains x universe ≡ true
    → contains x out ≡ false
    → contains x out' ≡ true
    → left out' universe < left out universe
left-< x out out' [] more found fresh now = absurd (ground arith)
left-< x out out' (y ∷ ys) more found fresh now = elim (Bool-cases (x == y)) [
  | inl hit ↦
      let e : x ≡ y = ground arith in
      let fresh' : contains y out ≡ false = rw e at fresh in
      let now' : contains y out' ≡ true = rw e at now in ground (arith, left-≤ out out' ys more)
  | inr miss ↦ ground (arith, left-< x out out' ys more (ground arith) fresh now, more y)
]

-- Whatever the tables hold and the queue waits for is of the universe or was answered for.
pub record IsCovered (universe : List Txid) (r : Round) : Type 0 where
  pub tables : Holds (known universe r.out_of_mempool) r.world.db
  pub queue : Within (known universe r.out_of_mempool) r.pending

-- A pass answers for one more txid, or shortens the queue.
pub record Progress (universe : List Txid) (r r' : Round) : Type 0 where
  pub covered : IsCovered universe r'
  pub moves :
      ((left r'.out_of_mempool universe ≡ left r.out_of_mempool universe)
        × (r'.pending ≡ r.pending))
      ⊎ (left r'.out_of_mempool universe < left r.out_of_mempool universe)

left-insert :
    (x : Txid) (out : TxSet) (universe : List Txid)
    → known universe out x ≡ true
    → contains x out ≡ false
    → left (insert x out) universe < left out universe
left-insert x out universe of_it fresh =
    left-< x out (insert x out) universe (λ y m. ground (arith, contains-insert y x out))
      (ground arith) fresh (ground (arith, contains-insert x x out))

module _ (o : Outside) (universe : List Txid) where
  left_mempool-Progress :
      (x : Txid) (r : Round)
      → IsCovered universe r
      → known universe r.out_of_mempool x ≡ true
      → contains x r.out_of_mempool ≡ false
      → Progress universe r (left_mempool o x r)
  unfolding left_mempool
  left_mempool-Progress x r c of_it fresh = record {
    covered = record {
      tables = λ y m. let k = c.tables y m in ground (arith, contains-insert y x r.out_of_mempool);
      queue = λ y m. let k = c.queue y m in ground (arith, contains-insert y x r.out_of_mempool);
    };
    moves = inr (left-insert x r.out_of_mempool universe of_it fresh);
  }

  -- The set of txids answered for stays as it is.
  abbrev Stays : Round → Round → Type 0
  Stays r r' = (r'.out_of_mempool ≡ r.out_of_mempool) × IsCovered universe r'

  buffer-Stays :
      (txids : List Txid) (chunks : List ClusterChunk) (r : Round)
      → IsCovered universe r
      → Stays r (buffer o txids chunks r)
  unfolding buffer
  buffer-Stays [] chunks r c = (refl, c)
  buffer-Stays (x ∷ _) chunks r c = (refl, record { tables = c.tables; queue = c.queue })

  regroup-Stays :
      (chunks : List ClusterChunk) (ids : List ℕ) (r : Round)
      → Within (known universe r.out_of_mempool) (chunk_txids chunks)
      → IsCovered universe r
      → Stays r (regroup o chunks ids r)
  unfolding regroup
  regroup-Stays chunks ids r new c =
      let p = known universe r.out_of_mempool in
      let done = upsert-Holds o p chunks ids r.world new c.tables in
      let detached = (upsert o chunks ids r.world).0.detached in
      let again = keep (λ x. not (contains x r.out_of_mempool)) detached in
      (
        refl,
        record {
          tables = done.0;
          queue =
              Within-append p r.pending again c.queue
                (Within-keep p (λ x. not (contains x r.out_of_mempool)) detached done.1);
        },
      )

  place-Stays :
      (chunks : List ClusterChunk) (r : Round)
      → Within (known universe r.out_of_mempool) (chunk_txids chunks)
      → IsCovered universe r
      → Stays r (place o chunks r)
  unfolding place query
  place-Stays chunks r new c =
      let r' : Round = record r { world = awaited o r.world } in
      go r' (find_active_ids_by_txids (chunk_txids chunks) r.world.db) (o.db_fails r.world.calls)
        refl new
        (record {
          tables = awaited-Holds o (known universe r.out_of_mempool) r.world c.tables;
          queue = c.queue;
        })
    where
      go :
          (r' : Round) (ids : List ℕ) (fails : Bool)
          → r'.out_of_mempool ≡ r.out_of_mempool
          → Within (known universe r'.out_of_mempool) (chunk_txids chunks)
          → IsCovered universe r'
          → Stays r (elim (if fails then none else some ids) [
            | none ↦ r'
            | some existing_ids ↦
                if length existing_ids == 0 && length (chunk_txids chunks) == 1
                then buffer o (chunk_txids chunks) chunks r'
                else regroup o chunks existing_ids r'
          ])
      go r' ids true e n k = (e, k)
      go r' ids false e n k =
          elim (Bool-cases (length ids == 0 && length (chunk_txids chunks) == 1)) [
            | inl single ↦
                let s = buffer-Stays (chunk_txids chunks) chunks r' k in rw single (s.0 ∙ e, s.1)
            | inr group ↦ let s = regroup-Stays chunks ids r' n k in rw group (s.0 ∙ e, s.1)
          ]

  answered-Progress :
      (x : Txid) (answer : NodeAnswer) (r : Round)
      → ((chunks : List ClusterChunk)
          → answer ≡ grouped chunks
          → (length (chunk_txids chunks) == 0) ≡ false
          → contains x (chunk_txids chunks) ≡ true)
      → IsCovered universe r
      → known universe r.out_of_mempool x ≡ true
      → contains x r.out_of_mempool ≡ false
      → Progress universe r (answered o x answer r)
  unfolding answered
  answered-Progress x node_error r holds c of_it fresh = record {
    covered = c;
    moves = inl (refl, refl);
  }
  answered-Progress x not_found r holds c of_it fresh = left_mempool-Progress x r c of_it fresh
  answered-Progress x (grouped chunks) r holds c of_it fresh =
      let txids = chunk_txids chunks in
      let out = r.out_of_mempool in
      let more : (y : Txid) → contains y out ≡ true → contains y (extend txids out) ≡ true =
        (λ y m. ground (arith, contains-extend y txids out)) in
      let wider : (y : Txid)
          → known universe out y ≡ true
          → known universe (extend txids out) y ≡ true =
        (λ y m. ground (arith, contains-extend y txids out)) in
      let r' : Round = record r {
        out_of_mempool = extend txids out;
        world = asserting_present o txids r.world;
      } in
      elim (Bool-cases (length txids == 0)) [
        | inl empty ↦ rw empty (left_mempool-Progress x r c of_it fresh)
        | inr group ↦
            let s =
              place-Stays chunks r' (λ y m. ground (arith, contains-extend y txids out))
                (record {
                  tables = λ y m. wider y (c.tables y m);
                  queue = λ y m. wider y (c.queue y m);
                }) in
            let asked = holds chunks refl group in
            let less =
              left-< x out (extend txids out) universe more (ground arith) fresh
                (ground (arith, contains-extend x txids out)) in
            rw group (record { covered = s.1; moves = inr (rw s.0 less) })
      ]

  pub ask_for-Progress :
      (x : Txid) (r : Round)
      → AnswersHold o
      → IsCovered universe r
      → known universe r.out_of_mempool x ≡ true
      → Progress universe r (ask_for o x r)
  unfolding ask_for
  ask_for-Progress x r holds c of_it = elim (Bool-cases (contains x r.out_of_mempool)) [
    | inl out ↦ rw out (record { covered = c; moves = inl (refl, refl) })
    | inr fresh ↦
        let r' : Round = record r { world = awaited o r.world } in
        let step =
          answered-Progress x (o.get_mempool_cluster r.world.calls x) r' (holds r.world.calls x)
            (record {
              tables = awaited-Holds o (known universe r.out_of_mempool) r.world c.tables;
              queue = c.queue;
            })
            of_it fresh in
        rw fresh (record { covered = step.covered; moves = step.moves })
  ]
