-- ===== src/Mined/Blocks.antt =====
-- api/src/services/cluster.rs: the blocks of `MinedTxs::by_block` and their rows.
use cluster_mempool_observer.Base.{
  ℕ, Bool, true, false, ◌&&◌, ◌≡◌, refl, sym, ◌∙◌, List, [], ◌∷◌, ◌++◌, map, Option, none, some,
  arith, All, Txid, keep, ◌==◌, if◌then◌else◌, Bool-cases, inl, inr,
}
use mathlib.Core.List.{append-nil, append_assoc}
use cluster_mempool_observer.Mined.{
  MinedRow, BlockEntry, push_row, before, is_block, add_row, add_mined, group_rows,
}

-- Each entry is before all that follow it, by height and then by hash.
abbrev pub IsOrdered : List BlockEntry → Type 0
IsOrdered [] = Unit {0}
IsOrdered (entry ∷ entries) =
    All (λ later. before entry.height entry.hash later ≡ true) entries × IsOrdered entries

-- The transactions of a block.
abbrev pub txids_of : ℕ → ℕ → List BlockEntry → List Txid
txids_of height hash [] = []
txids_of height hash (entry ∷ entries) =
    if is_block height hash entry then entry.txs.txids else txids_of height hash entries

abbrev has_hash : ℕ → Option ℕ → Bool
has_hash hash none = false
has_hash hash (some k) = hash == k

abbrev pub is_mined_in : ℕ → ℕ → MinedRow → Bool
is_mined_in height hash row = height == row.height && has_hash hash row.hash

before_trans :
    (height hash : ℕ) (e f : BlockEntry)
    → before height hash e ≡ true
    → before e.height e.hash f ≡ true
    → before height hash f ≡ true
before_trans height hash e f h k = ground arith

before_all :
    (height hash : ℕ) (e : BlockEntry) (entries : List BlockEntry)
    → before height hash e ≡ true
    → All (λ f. before e.height e.hash f ≡ true) entries
    → All (λ f. before height hash f ≡ true) entries
before_all height hash e [] h k = tt
before_all height hash e (f ∷ entries) h k =
    (before_trans height hash e f h k.0, before_all height hash e entries h k.1)

txids_of-before :
    (height hash : ℕ) (entries : List BlockEntry)
    → All (λ f. before height hash f ≡ true) entries
    → txids_of height hash entries ≡ []
txids_of-before height hash [] h = refl
txids_of-before height hash (f ∷ entries) h =
    let other : is_block height hash f ≡ false = ground (arith, h.0) in
    rw other (txids_of-before height hash entries h.1)

before_others :
    (row : MinedRow) (hash : ℕ) (e : BlockEntry) (entries : List BlockEntry)
    → before row.height hash e ≡ false
    → is_block row.height hash e ≡ false
    → All (λ f. before e.height e.hash f ≡ true) entries
    → All (λ f. before e.height e.hash f ≡ true) (add_row row hash entries)
unfolding add_row
before_others row hash e [] late other h = (ground arith, tt)
before_others row hash e (f ∷ entries) late other h = elim (Bool-cases (before row.height hash f)) [
  | inl first ↦ rw first (ground arith, h)
  | inr after ↦ rw after (elim (Bool-cases (is_block row.height hash f)) [
    | inl here ↦ rw here h
    | inr there ↦ rw there (h.0, before_others row hash e entries late other h.1)
  ])
]

add_row-IsOrdered :
    (row : MinedRow) (hash : ℕ) (entries : List BlockEntry)
    → IsOrdered entries
    → IsOrdered (add_row row hash entries)
unfolding add_row
add_row-IsOrdered row hash [] v = (tt, tt)
add_row-IsOrdered row hash (e ∷ entries) v =
    let rest = add_row-IsOrdered row hash entries v.1 in
    elim (Bool-cases (before row.height hash e)) [
      | inl first ↦ rw first ((first, before_all row.height hash e entries first v.0), v)
      | inr after ↦ rw after (elim (Bool-cases (is_block row.height hash e)) [
        | inl here ↦ rw here v
        | inr there ↦ rw there (before_others row hash e entries after there v.0, rest)
      ])
    ]

abbrev gains : ℕ → ℕ → MinedRow → ℕ → List Txid
gains height hash row k = if height == row.height && hash == k then row.txid ∷ [] else []

txids_of-add_row :
    (height hash : ℕ) (row : MinedRow) (k : ℕ) (entries : List BlockEntry)
    → IsOrdered entries
    → txids_of height hash (add_row row k entries)
      ≡ txids_of height hash entries ++ gains height hash row k
unfolding add_row push_row
txids_of-add_row height hash row k [] v = elim (Bool-cases (height == row.height && hash == k)) [
  | inl hit ↦ rw hit refl
  | inr miss ↦ rw miss refl
]
txids_of-add_row height hash row k (e ∷ entries) v =
    let rest = txids_of-add_row height hash row k entries v.1 in
    elim (Bool-cases (before row.height k e)) [
      | inl first ↦ rw first (elim (Bool-cases (height == row.height && hash == k)) [
        | inl hit ↦
            let sooner : before height hash e ≡ true = ground arith in
            let other : is_block height hash e ≡ false = ground arith in
            rw (hit, other)
              (rw
                (txids_of-before height hash entries (before_all height hash e entries sooner v.0))
                refl)
        | inr miss ↦ rw miss (sym (append-nil _))
      ])
      | inr after ↦ rw after (elim (Bool-cases (is_block row.height k e)) [
        | inl here ↦ rw here (elim (Bool-cases (is_block height hash e)) [
          | inl named ↦
              let hit : (height == row.height && hash == k) ≡ true = ground arith in
              rw (named, hit) refl
          | inr unnamed ↦
              let miss : (height == row.height && hash == k) ≡ false = ground arith in
              rw (unnamed, miss) (sym (append-nil _))
        ])
        | inr there ↦ rw there (elim (Bool-cases (is_block height hash e)) [
          | inl named ↦
              let miss : (height == row.height && hash == k) ≡ false = ground arith in
              rw (named, miss) (sym (append-nil _))
          | inr unnamed ↦ rw unnamed rest
        ])
      ])
    ]

add_mined-IsOrdered :
    (row : MinedRow) (o : Option ℕ) (entries : List BlockEntry)
    → IsOrdered entries
    → IsOrdered (add_mined row o entries)
add_mined-IsOrdered row none entries v = v
add_mined-IsOrdered row (some k) entries v = add_row-IsOrdered row k entries v

txids_of-add_mined :
    (height hash : ℕ) (row : MinedRow) (o : Option ℕ) (entries : List BlockEntry)
    → IsOrdered entries
    → txids_of height hash (add_mined row o entries)
      ≡ txids_of height hash entries
        ++ (if height == row.height && has_hash hash o then row.txid ∷ [] else [])
txids_of-add_mined height hash row none entries v =
    let miss : (height == row.height && false) ≡ false = ground arith in
    rw miss (sym (append-nil _))
txids_of-add_mined height hash row (some k) entries v = txids_of-add_row height hash row k entries v

group_rows-from :
    (height hash : ℕ) (rows : List MinedRow) (entries : List BlockEntry)
    → IsOrdered entries
    → IsOrdered (group_rows rows entries)
      × (txids_of height hash (group_rows rows entries)
          ≡ txids_of height hash entries
            ++ map (λ row. row.txid) (keep (is_mined_in height hash) rows))
unfolding group_rows
group_rows-from height hash [] entries v = (v, sym (append-nil _))
group_rows-from height hash (row ∷ rows) entries v =
    let rest =
      group_rows-from height hash rows (add_mined row row.hash entries)
        (add_mined-IsOrdered row row.hash entries v) in
    (
      rest.0,
      rest.1
          ∙ rw (txids_of-add_mined height hash row row.hash entries v)
              (elim (Bool-cases (is_mined_in height hash row)) [
                | inl hit ↦ rw hit (append_assoc _ (row.txid ∷ []) _)
                | inr miss ↦ rw miss (
                    append_assoc (txids_of height hash entries) []
                      (map (λ (row : MinedRow). row.txid) (keep (is_mined_in height hash) rows)))
              ]),
    )

-- The mined transactions are grouped in order of height, then of hash, no block twice, and the
-- transactions of each block are those of the rows that name it, in their order.
pub group_rows-exact :
    (rows : List MinedRow) (height hash : ℕ)
    → IsOrdered (group_rows rows [])
      × (txids_of height hash (group_rows rows [])
          ≡ map (λ row. row.txid) (keep (is_mined_in height hash) rows))
group_rows-exact rows height hash = group_rows-from height hash rows [] tt
