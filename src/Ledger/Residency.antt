-- ===== src/Ledger/Residency.antt =====
-- shared/src/snapshot/mempool.rs: `residency_delta` and the residency before and after a batch.
use cluster_mempool_observer.Base.{
  Txid, TxSet, ℕ, Bool, true, false, not, ◌&&◌, ◌||◌, ◌≡◌, refl, List, [], ◌∷◌, Option, none, some,
  contains, arith, Bool-cases, inl, inr, if◌then◌else◌, ◌==◌, contains-insert, contains-remove,
  Distinct,
}
use cluster_mempool_observer.Ledger.Journal.{DeltaDirection, add, rem, JournalEntry}
use cluster_mempool_observer.Ledger.Replay.{replay, moved, is_rem, IsEffective}
use cluster_mempool_observer.Ledger.Batch.{
  same_direction, FirstLast, note, first_last, stayed, residency_delta,
}

get : Txid → FirstLast → Option (DeltaDirection × DeltaDirection)
get x [] = none
get x ((y, first, last) ∷ m) = if x == y then some (first, last) else get x m

abbrev noted : Txid → FirstLast → Bool
noted x [] = false
noted x ((y, _, _) ∷ m) = x == y || noted x m

abbrev DistinctKeys : FirstLast → Type 0
DistinctKeys [] = Unit {0}
DistinctKeys ((y, _, _) ∷ m) = (noted y m ≡ false) × DistinctKeys m

noted-note :
    (x y : Txid) (d : DeltaDirection) (m : FirstLast) → noted x (note y d m) ≡ (x == y || noted x m)
noted-note x y d [] = refl
noted-note x y d ((z, f, l) ∷ m) = ground (arith, noted-note x y d m)

note-DistinctKeys :
    (y : Txid) (d : DeltaDirection) (m : FirstLast) → DistinctKeys m → DistinctKeys (note y d m)
note-DistinctKeys y d [] k = (refl, tt)
note-DistinctKeys y d ((z, f, l) ∷ m) k =
    ground (arith, noted-note z y d m, note-DistinctKeys y d m k.1)

-- What the entry of a txid says of the residency before the batch and now.
abbrev Says : Bool → Bool → Option (DeltaDirection × DeltaDirection) → Type 0
Says before now none = before ≡ now
Says before now (some (first, last)) = (before ≡ is_rem first) × (now ≡ not (is_rem last))

abbrev next_entry :
    DeltaDirection → Option (DeltaDirection × DeltaDirection) → DeltaDirection × DeltaDirection
next_entry d none = (d, d)
next_entry d (some (first, last)) = (first, d)

get-note :
    (x y : Txid) (d : DeltaDirection) (m : FirstLast)
    → get x (note y d m) ≡ (if x == y then some (next_entry d (get x m)) else get x m)
unfolding get
get-note x y d [] = ground arith
get-note x y d ((z, f, l) ∷ m) = ground (arith, get-note x y d m)

noted-get : (x : Txid) (m : FirstLast) → noted x m ≡ false → get x m ≡ none
unfolding get
noted-get x [] h = refl
noted-get x ((z, f, l) ∷ m) h = ground (arith, noted-get x m)

abbrev Tells : TxSet → TxSet → FirstLast → Type 0
Tells before now m = (x : ℕ) → Says (contains x before) (contains x now) (get x m)

Says-next :
    (d : DeltaDirection) (before now : Bool) (o : Option (DeltaDirection × DeltaDirection))
    → now ≡ is_rem d
    → Says before now o
    → Says before (not (is_rem d)) (some (next_entry d o))
Says-next d before now none e h = (ground arith, refl)
Says-next d before now (some (first, last)) e h = (h.0, refl)

contains-moved_self :
    (x y : Txid) (d : DeltaDirection) (now : TxSet)
    → (x == y) ≡ true
    → contains x (moved d y now) ≡ not (is_rem d)
contains-moved_self x y add now e = ground (arith, contains-insert x y now)
contains-moved_self x y rem now e = ground (arith, contains-remove x y now)

contains-moved_other :
    (x y : Txid) (d : DeltaDirection) (now : TxSet)
    → (x == y) ≡ false
    → contains x (moved d y now) ≡ contains x now
contains-moved_other x y add now e = ground (arith, contains-insert x y now)
contains-moved_other x y rem now e = ground (arith, contains-remove x y now)

same : (x y : Txid) → (x == y) ≡ true → x ≡ y
same x y h = ground arith

note-Tells :
    (before now : TxSet) (y : Txid) (d : DeltaDirection) (m : FirstLast)
    → contains y now ≡ is_rem d
    → Tells before now m
    → Tells before (moved d y now) (note y d m)
note-Tells before now y d m fresh t x = elim (Bool-cases (x == y)) [
  | inl hit ↦
      rw (get-note x y d m, contains-moved_self x y d now hit, hit)
        (Says-next d (contains x before) (contains x now) (get x m) (rw (same x y hit) fresh) (t x))
  | inr miss ↦ rw (get-note x y d m, contains-moved_other x y d now miss, miss) (t x)
]

first_last-Tells :
    (before now : TxSet) (m : FirstLast) (es : List JournalEntry)
    → IsEffective now es
    → Tells before now m
    → Tells before (replay now es) (first_last m es)
unfolding first_last replay
first_last-Tells before now m [] h t = t
first_last-Tells before now m (e ∷ es) h t =
    first_last-Tells before (moved e.direction e.txid now) (note e.txid e.direction m) es h.1
      (note-Tells before now e.txid e.direction m h.0 t)

first_last-DistinctKeys :
    (m : FirstLast) (es : List JournalEntry) → DistinctKeys m → DistinctKeys (first_last m es)
unfolding first_last
first_last-DistinctKeys m [] k = k
first_last-DistinctKeys m (e ∷ es) k =
    first_last-DistinctKeys (note e.txid e.direction m) es
      (note-DistinctKeys e.txid e.direction m k)

abbrev both : DeltaDirection → Option (DeltaDirection × DeltaDirection) → Bool
both d none = false
both d (some (first, last)) = same_direction first d && same_direction last d

contains-stayed_absent :
    (x : Txid) (d : DeltaDirection) (m : FirstLast)
    → noted x m ≡ false
    → contains x (stayed d m) ≡ false
unfolding stayed
contains-stayed_absent x d [] h = refl
contains-stayed_absent x d ((y, f, l) ∷ m) h = ground (arith, contains-stayed_absent x d m)

contains-stayed :
    (x : Txid) (d : DeltaDirection) (m : FirstLast)
    → DistinctKeys m
    → contains x (stayed d m) ≡ both d (get x m)
unfolding stayed get
contains-stayed x d [] k = refl
contains-stayed x d ((y, f, l) ∷ m) k = elim (Bool-cases (x == y)) [
  | inl hit ↦ ground (arith, contains-stayed_absent x d m)
  | inr miss ↦ ground (arith, contains-stayed x d m k.1)
]

stayed-Distinct : (d : DeltaDirection) (m : FirstLast) → DistinctKeys m → Distinct (stayed d m)
unfolding stayed
stayed-Distinct d [] k = tt
stayed-Distinct d ((y, f, l) ∷ m) k =
    ground (arith, contains-stayed_absent y d m, stayed-Distinct d m k.1)

both_add :
    (before now : Bool) (o : Option (DeltaDirection × DeltaDirection))
    → Says before now o
    → both add o ≡ (now && not before)
both_add before now none h = ground arith
both_add before now (some (first, last)) h = ground arith

both_rem :
    (before now : Bool) (o : Option (DeltaDirection × DeltaDirection))
    → Says before now o
    → both rem o ≡ (before && not now)
both_rem before now none h = ground arith
both_rem before now (some (first, last)) h = ground arith

-- A batch whose entries each change the residency `db` that they meet reports as added exactly the
-- txids that are resident after it and were not before, and as removed exactly those that were and
-- are no more; a txid that came and went, or left and came back, is in neither, and none is
-- reported twice.
pub residency_delta-difference :
    (db : TxSet) (es : List JournalEntry)
    → IsEffective db es
    → Distinct (residency_delta es).0
      × Distinct (residency_delta es).1
      × ((x : Txid)
          → (contains x (residency_delta es).0 ≡ (contains x (replay db es) && not (contains x db)))
            × (contains x (residency_delta es).1
                ≡ (contains x db && not (contains x (replay db es)))))
unfolding residency_delta get
residency_delta-difference db es h =
    let m = first_last [] es in
    let keys = first_last-DistinctKeys [] es tt in
    let tells = first_last-Tells db db [] es h (λ x. refl) in
    (
      stayed-Distinct add m keys,
      stayed-Distinct rem m keys,
      λ x. (
        rw (contains-stayed x add m keys) (both_add _ _ (get x m) (tells x)),
        rw (contains-stayed x rem m keys) (both_rem _ _ (get x m) (tells x)),
      ),
    )
