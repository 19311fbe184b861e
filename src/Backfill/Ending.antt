-- ===== src/Backfill/Ending.antt =====
-- api/src/services/tx_backfill.rs: the tries of one request, and the waits between them.
use Prim.Native.Nat.pow
use cluster_mempool_observer.Base.{
  ℕ, zero, suc, ◌+◌, ◌*◌, ◌^◌, ◌≤◌, ◌<◌, min, Bool, true, false, ◌≡◌, refl, sym, ◌∙◌, arith, leb,
  ltb, Bool-cases, inl, inr, if◌then◌else◌,
}
use cluster_mempool_observer.Db.{Database}
use cluster_mempool_observer.BlockSync.{shift_factor}
use cluster_mempool_observer.Backfill.{
  max_attempts, BackfillRequest, retry_backoff, retry_backoff_base, max_retry_backoff, next_attempt,
  Meeting, Verdict, done, left_hollow, refused, gave_up, dropped, requeues, process,
}
use cluster_mempool_observer.Backfill.Retries.{IsRetry, process-IsRetry}

-- The tries of a request, each of which meets the node and the tables as others left them: whether it
-- has ended after so many.
unfoldable pub ends_within : ℕ → (ℕ → Meeting × Database) → ℕ → BackfillRequest → Bool
ends_within zero visits n req = false
ends_within (suc tries) visits n req = elim (process (visits n).0 req (visits n).1).1 [
  | requeues wait again ↦ ends_within tries visits (suc n) again
  | _ ↦ true
]

next_attempt-below : (a : ℕ) → next_attempt a < max_attempts → next_attempt a ≡ a + 1
unfolding next_attempt
next_attempt-below a h = elim (Bool-cases (ltb a 255)) [
  | inl low ↦ rw low refl
  | inr top ↦ let n : 255 < 37 = rw top at h in absurd (omega arith)
]

ends_within-left :
    (tries : ℕ) (visits : ℕ → Meeting × Database) (n : ℕ) (req : BackfillRequest)
    → ((k : ℕ) → (visits k).0.in_mempool ≡ false)
    → max_attempts ≤ tries + req.attempts
    → 1 ≤ tries
    → ends_within tries visits n req ≡ true
unfolding ends_within
ends_within-left zero visits n req out enough some_try = absurd (omega arith)
ends_within-left (suc tries) visits n req out enough some_try =
    go (process (visits n).0 req (visits n).1).1
      (λ wait again. process-IsRetry (visits n).0 req (visits n).1 wait again)
      (ends_within-left tries visits (suc n))
  where
    go :
        (v : Verdict)
        → ((wait : ℕ) (again : BackfillRequest)
            → v ≡ requeues wait again
            → IsRetry (visits n).0 req (process (visits n).0 req (visits n).1).0 wait again)
        → ((again : BackfillRequest)
            → ((k : ℕ) → (visits k).0.in_mempool ≡ false)
            → max_attempts ≤ tries + again.attempts
            → 1 ≤ tries
            → ends_within tries visits (suc n) again ≡ true)
        → elim v [ requeues wait again ↦ ends_within tries visits (suc n) again | _ ↦ true ] ≡ true
    go done retry next = refl
    go left_hollow retry next = refl
    go refused retry next = refl
    go gave_up retry next = refl
    go dropped retry next = refl
    go (requeues wait again) retry next =
        let r = retry wait again refl in
        let low : again.attempts < max_attempts = elim r.worth [
          | inl held ↦ let no : false ≡ true = sym (out n) ∙ held in absurd (ground arith)
          | inr few ↦ few
        ] in
        let counts : again.attempts ≡ req.attempts + 1 =
          r.one_more ∙ next_attempt-below req.attempts (rw (← r.one_more) low) in
        next again out (omega arith) (omega arith)

-- While the ledger does not have its transaction, a request ends within 37 tries, however many it has
-- behind it, whatever the node answers and whatever the tables hold at each.
pub ends_within-max_attempts :
    (visits : ℕ → Meeting × Database) (req : BackfillRequest)
    → ((k : ℕ) → (visits k).0.in_mempool ≡ false)
    → ends_within max_attempts visits 0 req ≡ true
ends_within-max_attempts visits req out =
    ends_within-left max_attempts visits 0 req out (omega arith) (omega arith)

power-large : (n : ℕ) → 32 ≤ n → 4294967296 ≤ 2 ^ n
power-large zero h = absurd (omega arith)
power-large (suc n) h = elim (Bool-cases (ltb n 32)) [
  | inl first ↦ let e : n ≡ 31 = ground arith in rw e (omega arith)
  | inr later ↦ let low = power-large n (ground arith) in rw (pow.suc 2 n) (omega arith)
]

leb-min : (a b : ℕ) → (if leb a b then a else b) ≡ min a b
leb-min a b = ground arith

-- The wait before a retry doubles with each attempt up to a minute, however many attempts there were:
-- the shift never loses its bit.
pub retry_backoff-doubles :
    (attempts : ℕ)
    → retry_backoff attempts ≡ min (retry_backoff_base * 2 ^ attempts) max_retry_backoff
unfolding retry_backoff shift_factor
retry_backoff-doubles attempts = elim (Bool-cases (ltb attempts 32)) [
  | inl small ↦ rw small (leb-min (250 * 2 ^ attempts) 60000)
  | inr large ↦ let low = power-large attempts (ground arith) in rw large (omega arith)
]
