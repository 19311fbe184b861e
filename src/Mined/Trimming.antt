-- ===== src/Mined/Trimming.antt =====
-- api/src/services/cluster.rs: `MinedTrim` and the members of a partly mined cluster.
use cluster_mempool_observer.Base.{
  suc, Bool, true, not, ◌≡◌, refl, sym, ◌∙◌, ap, List, [], ◌∷◌, ◌++◌, arith, Txid, keep, length,
  ◌==◌, Bool-cases, inl, inr,
}
use cluster_mempool_observer.Db.{ClusterChunk, Cluster}
use cluster_mempool_observer.Membership.{chunk_txids}
use cluster_mempool_observer.Mined.{
  MinedBlock, in_block, split_chunk, kept_of, trim_chunks, mined_trim,
}

keep-append : (p : Txid → Bool) (xs ys : List Txid) → keep p (xs ++ ys) ≡ keep p xs ++ keep p ys
keep-append p [] ys = refl
keep-append p (x ∷ xs) ys = elim (Bool-cases (p x)) [
  | inl hit ↦ rw (hit, keep-append p xs ys) refl
  | inr miss ↦ rw (miss, keep-append p xs ys) refl
]

keep-all :
    (p : Txid → Bool) (xs : List Txid)
    → (length (keep (λ x. not (p x)) xs) == 0) ≡ true
    → keep p xs ≡ xs
keep-all p [] h = refl
keep-all p (x ∷ xs) h = elim (Bool-cases (p x)) [
  | inl hit ↦ rw hit (ap (λ ys. x ∷ ys) (keep-all p xs (rw hit at h)))
  | inr miss ↦
      let some_left : (suc (length (keep (λ y. not (p y)) xs)) == 0) ≡ true = rw miss at h in
      absurd (ground arith)
]

is_empty-≡ : (xs : List Txid) → (length xs == 0) ≡ true → xs ≡ []
is_empty-≡ [] h = refl
is_empty-≡ (x ∷ xs) h = absurd (ground arith)

append_empty : (xs : List Txid) → xs ++ [] ≡ xs
append_empty [] = refl
append_empty (x ∷ xs) = rw (append_empty xs) refl

chunk_txids-append :
    (cs ds : List ClusterChunk) → chunk_txids (cs ++ ds) ≡ chunk_txids cs ++ chunk_txids ds
unfolding chunk_txids
chunk_txids-append [] ds = refl
chunk_txids-append (c ∷ cs) ds =
    rw (chunk_txids-append cs ds) (append_again c.txids (chunk_txids cs) (chunk_txids ds))
  where
    append_again : (xs ys zs : List Txid) → xs ++ (ys ++ zs) ≡ (xs ++ ys) ++ zs
    append_again [] ys zs = refl
    append_again (x ∷ xs) ys zs = rw (append_again xs ys zs) refl

chunk_txids-kept_of :
    (block : MinedBlock) (chunk : ClusterChunk)
    → chunk_txids (kept_of block chunk) ≡ keep (in_block block) chunk.txids
unfolding chunk_txids split_chunk
chunk_txids-kept_of block chunk =
    let mined = keep (in_block block) chunk.txids in
    let left = keep (λ x. not (in_block block x)) chunk.txids in
    elim (Bool-cases (length left == 0)) [
      | inl whole ↦
          rw whole (append_empty chunk.txids ∙ sym (keep-all (in_block block) chunk.txids whole))
      | inr part ↦ rw part (elim (Bool-cases (length mined == 0)) [
        | inl apart ↦ rw apart (sym (is_empty-≡ mined apart))
        | inr some_mined ↦ rw some_mined (append_empty mined)
      ])
    ]

trim_chunks-partition :
    (block : MinedBlock) (chunks : List ClusterChunk)
    → (chunk_txids (trim_chunks block chunks).0 ≡ keep (in_block block) (chunk_txids chunks))
      × ((trim_chunks block chunks).1 ≡ keep (λ x. not (in_block block x)) (chunk_txids chunks))
unfolding trim_chunks chunk_txids
trim_chunks-partition block [] = (refl, refl)
trim_chunks-partition block (chunk ∷ chunks) =
    let rest = trim_chunks-partition block chunks in
    rw
      (
        chunk_txids-append (kept_of block chunk) (trim_chunks block chunks).0,
        chunk_txids-kept_of block chunk,
        rest.0,
        rest.1,
        keep-append (in_block block) chunk.txids (chunk_txids chunks),
        keep-append (λ x. not (in_block block x)) chunk.txids (chunk_txids chunks),
      )
      (refl, refl)

-- The chunks that a partly mined cluster keeps hold exactly the members that the block mined, and those
-- that still need a cluster are exactly the others, both in mining order.
pub mined_trim-partition :
    (cluster : Cluster) (block : MinedBlock)
    → (chunk_txids (mined_trim cluster block).mined
        ≡ keep (in_block block) (chunk_txids cluster.chunks))
      × ((mined_trim cluster block).pending
          ≡ keep (λ x. not (in_block block x)) (chunk_txids cluster.chunks))
unfolding mined_trim
mined_trim-partition cluster block = trim_chunks-partition block cluster.chunks
