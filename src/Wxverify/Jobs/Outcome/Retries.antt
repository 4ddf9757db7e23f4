-- ===== src/Wxverify/Jobs/Outcome/Retries.antt =====
-- The retries of `fail` in wxverify/wxverify/db/queue.py: how long each waits, and how many there are.
use home_assistant_apps.Prelude.{
  ℕ, suc, ◌+◌, ◌^◌, ◌≤◌, ◌<◌, ◌≡◌, refl, ap, ◌∙◌, List, [], ◌∷◌, length, Option, Text, min, leb,
  if◌then◌else◌, if_rule, arith,
}
use native.Mathlib.Nat.{pow-le-pow_right}
use home_assistant_apps.Wxverify.Jobs.{pending, failed, Row, Outside}
use home_assistant_apps.Wxverify.Jobs.Claim.{start}
use home_assistant_apps.Wxverify.Jobs.Outcome.{
  max_retry_count, FailDisposition, at_least, retry_delay, is_exhausted, fail_row,
}

power_le : (c : ℕ) → 2 ^ min c 10 ≤ 1024
power_le c = pow-le-pow_right {n = 2} (omega arith) {i = min c 10} {j = 10} (omega arith)

-- The wait before a retry doubles from 2 seconds up to 1024, so the cap of an hour is never
-- reached; a floor of the caller's is kept when it is longer.
pub retry_delay-Doubles :
    (retry_count : ℕ) (floor : Option ℕ)
    → retry_delay retry_count floor ≡ at_least floor (2 ^ min retry_count 10)
      × 2 ^ min retry_count 10 ≤ 1024
unfolding retry_delay
retry_delay-Doubles retry_count floor =
    (ap (at_least floor) (omega (arith, power_le retry_count)), power_le retry_count)

-- The row, after so many failures more: counted, and pending while they are no more than the most.
pub record HasFailed (r : Row) (n : ℕ) (r' : Row) : Type 0 where
  pub counted : r'.retry_count ≡ r.retry_count + n
  pub same_most : r'.max_retries ≡ r.max_retries
  pub is_left : r'.status ≡ (if leb (r.retry_count + n) r.max_retries then pending else failed)

module _ (outside : Outside) where
  -- A run of the job that raises: when, with what, and with which floor.
  abbrev pub Failure : Type 0
  Failure = ℕ × (Text × Option ℕ)

  -- The row after its claim and such a run.
  abbrev pub fail_once : Failure → Row → Row
  fail_once (now, (error, floor)) r =
      (fail_row outside now error floor (start outside (outside.isoformat_utc now) r)).1

  unfoldable pub fail_all : List Failure → Row → Row
  fail_all [] r = r
  fail_all (f ∷ fs) r = fail_all fs (fail_once f r)

  fail_once-HasFailed :
      (f : Failure) (r : Row)
      → r.max_retries < max_retry_count
      → r.retry_count ≤ r.max_retries
      → HasFailed r 1 (fail_once f r)
  unfolding fail_row
  fail_once-HasFailed (now, (error, floor)) r small le =
      if_rule (λ (x : FailDisposition × Row). HasFailed r 1 x.1)
        (is_exhausted (start outside (outside.isoformat_utc now) r)) _ _
        (λ e. record { counted = ground arith; same_most = refl; is_left = ground arith })
        (λ e. record { counted = ground arith; same_most = refl; is_left = ground arith })

  HasFailed-trans :
      (n : ℕ) (r r' r'' : Row) → HasFailed r 1 r' → HasFailed r' n r'' → HasFailed r (suc n) r''
  HasFailed-trans n r r' r'' h k =
      let sum : r'.retry_count + n ≡ r.retry_count + suc n = omega (arith, h.counted) in
      record {
        counted = k.counted ∙ sum;
        same_most = k.same_most ∙ h.same_most;
        is_left = k.is_left ∙ rw (sum, h.same_most) refl;
      }

  -- A job whose runs all raise: with the retries it has left, it is pending again after each failure
  -- that is not past them, with that failure counted, and failed for good after the one that is. Its
  -- most retries are below 2^63 - 1, where the count saturates.
  pub fail_all-HasFailed :
      (f : Failure) (fs : List Failure) (r : Row)
      → r.max_retries < max_retry_count
      → r.retry_count + length (f ∷ fs) ≤ r.max_retries + 1
      → HasFailed r (length (f ∷ fs)) (fail_all (f ∷ fs) r)
  unfolding fail_all
  fail_all-HasFailed f [] r small le = fail_once-HasFailed f r small (omega arith)
  fail_all-HasFailed f (g ∷ gs) r small le =
      let first = fail_once-HasFailed f r small (omega arith) in
      let later =
        fail_all-HasFailed g gs (fail_once f r) (omega (arith, first.same_most, small))
          (omega (arith, le, first.counted, first.same_most)) in
      HasFailed-trans (length (g ∷ gs)) r (fail_once f r) (fail_all (g ∷ gs) (fail_once f r)) first
        later
