-- ===== src/Mined/Eviction.antt =====
-- api/src/services/cluster.rs: which clusters `handle_evicted` closes, and which txids it looks for
-- again.
use cluster_mempool_observer.Base.{
  ℕ, Bool, true, false, not, ◌&&◌, ◌||◌, ◌≡◌, refl, sym, ◌∙◌, List, [], ◌∷◌, arith, Txid, TxSet,
  contains, contains-append, keep, any, length, ◌==◌, Bool-cases, inl, inr,
}
use cluster_mempool_observer.Db.{Cluster, is_active}
use cluster_mempool_observer.Membership.{chunk_txids}
use cluster_mempool_observer.Mined.{remaining, split_evicted}

-- An active cluster of which a member was evicted.
abbrev pub is_shrunk : TxSet → Cluster → Bool
is_shrunk evicted cluster =
    is_active cluster.row.status && any (λ x. contains x evicted) (chunk_txids cluster.chunks)

contains-remaining :
    (x : Txid) (evicted live : TxSet) (xs : List Txid)
    → contains x (keep (λ y. not (contains y evicted) && contains y live) xs)
      ≡ (contains x xs && (not (contains x evicted) && contains x live))
contains-remaining x evicted live [] = refl
contains-remaining x evicted live (y ∷ xs) = ground (arith, contains-remaining x evicted live xs)

length-contains : (x : Txid) (xs : List Txid) → (length xs == 0) ≡ true → contains x xs ≡ false
length-contains x [] h = refl
length-contains x (y ∷ xs) h = absurd (ground arith)

-- A txid is looked for again exactly if it is a member of one of the loaded clusters that is active and
-- lost a member, was not evicted and is still live; and a cluster is closed exactly if it is such a
-- cluster and no member of it is left.
pub split_evicted-exact :
    (evicted live : TxSet) (clusters : List Cluster) (x : Txid) (id : ℕ)
    → (contains x (split_evicted evicted live clusters).1 ≡ (
        any (λ c. is_shrunk evicted c && contains x (chunk_txids c.chunks)) clusters
        && (not (contains x evicted) && contains x live)))
      × (contains id (split_evicted evicted live clusters).0
          ≡ any
              (λ c. id == c.id && (is_shrunk evicted c && length (remaining evicted live c) == 0))
              clusters)
unfolding split_evicted
split_evicted-exact evicted live [] x id = (refl, refl)
split_evicted-exact evicted live (c ∷ clusters) x id =
    let rest = split_evicted-exact evicted live clusters x id in
    let left = remaining evicted live c in
    let here = contains-remaining x evicted live (chunk_txids c.chunks) in
    let join = contains-append x left (split_evicted evicted live clusters).1 in
    elim (Bool-cases (is_active c.row.status)) [
      | inr closed ↦ rw closed (rest.0, ground (arith, rest.1))
      | inl live_c ↦
          rw live_c (elim (Bool-cases (any (λ y. contains y evicted) (chunk_txids c.chunks))) [
            | inr whole ↦ rw whole (rest.0, ground (arith, rest.1))
            | inl shrunk ↦ rw shrunk (elim (Bool-cases (length left == 0)) [
              | inl gone ↦ rw gone (
                nobody (contains x (chunk_txids c.chunks)) _ _ _ rest.0
                    (sym here ∙ length-contains x left gone),
                closed_too (id == c.id) _ _ rest.1,
              )
              | inr some_left ↦ rw some_left (
                join ∙ somebody (contains x (chunk_txids c.chunks)) _ _ _ _ here rest.0,
                left_alone (id == c.id) _ _ rest.1,
              )
            ])
          ])
    ]
  where
    nobody : (m w k a : Bool) → a ≡ (w && k) → (m && k) ≡ false → a ≡ ((m || w) && k)
    nobody m w k a h e = ground arith

    somebody : (m w k l a : Bool) → l ≡ (m && k) → a ≡ (w && k) → (l || a) ≡ ((m || w) && k)
    somebody m w k l a h e = ground arith

    closed_too : (i a b : Bool) → a ≡ b → (i || a) ≡ (i && true || b)
    closed_too i a b e = ground arith

    left_alone : (i a b : Bool) → a ≡ b → a ≡ (i && false || b)
    left_alone i a b e = ground arith
