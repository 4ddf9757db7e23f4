-- ===== src/Wxverify/Jobs/Edges.antt =====
-- The rows that the operations of db/queue.py write go along the edges of the statuses.
use home_assistant_apps.Prelude.{
  ℕ, ◌≡◌, refl, sym, ap, true, Option, none, some, Text, text_eq→≡, ==_iff, if_rule, and_left,
  and_right, arith,
}
use home_assistant_apps.Wxverify.Jobs.{
  Status, pending, running, completed, failed, Row, JobName, has_name, same_site, is_pending,
  is_running, Outside, new_row,
}
use home_assistant_apps.Wxverify.Jobs.Claim.{start}
use home_assistant_apps.Wxverify.Jobs.Outcome.{
  FailDisposition, is_exhausted, failed_row, retried_row, fail_row, reclaim_row,
}
use home_assistant_apps.Wxverify.Jobs.Moves.{Edge, claimed, requeued, gave_up, Legal}

pending-Edge : (s : Status) → is_pending s ≡ true → Edge s running
pending-Edge pending e = claimed
pending-Edge running e = grind arith
pending-Edge completed e = grind arith
pending-Edge failed e = grind arith

running-Edge : (s s' : Status) → is_running s ≡ true → Edge running s' → Edge s s'
running-Edge running s' e edge = edge
running-Edge pending s' e edge = grind arith
running-Edge completed s' e edge = grind arith
running-Edge failed s' e edge = grind arith

-- A running row that keeps its name advances.
pub Legal-running :
    (r r' : Row)
    → is_running r.status ≡ true
    → r'.id ≡ r.id
    → ((n : JobName) → has_name n r' ≡ has_name n r)
    → Edge running r'.status
    → Legal r r'
Legal-running r r' e same named edge = record {
  same_id = same;
  same_name = named;
  edge = running-Edge r.status r'.status e edge;
}

JobName-ext :
    (m n : JobName) → m.type ≡ n.type → m.site_id ≡ n.site_id → m.job_key ≡ n.job_key → m ≡ n
JobName-ext m n e f g = λ i. record { type = e i; site_id = f i; job_key = g i }

same_site→≡ : (s s' : Option ℕ) → same_site s s' ≡ true → s ≡ s'
same_site→≡ none none h = refl
same_site→≡ none (some b) h = grind arith
same_site→≡ (some a) none h = grind arith
same_site→≡ (some a) (some b) h = ap some ((==_iff a b).0 h)

module _ (outside : Outside) where
  pub Legal-start :
      (now : Text) (r : Row) → is_pending r.status ≡ true → Legal r (start outside now r)
  unfolding has_name
  Legal-start now r e = record {
    same_id = refl;
    same_name = λ n. refl;
    edge = pending-Edge r.status e;
  }

  pub Legal-fail_row :
      (now : ℕ) (error : Text) (min_delay : Option ℕ) (r : Row)
      → is_running r.status ≡ true
      → Legal r (fail_row outside now error min_delay r).1
  unfolding fail_row has_name
  Legal-fail_row now error min_delay r e =
      if_rule (λ (x : FailDisposition × Row). Legal r x.1) (is_exhausted r) _ _
        (λ _. Legal-running r (failed_row outside now error r).1 e refl (λ n. refl) gave_up)
        (λ _. Legal-running r (retried_row outside now error _ r).1 e refl (λ n. refl) requeued)

  pub Legal-reclaim :
      (now : ℕ) (r : Row) → is_running r.status ≡ true → Legal r (reclaim_row outside now r)
  unfolding has_name
  Legal-reclaim now r e = Legal-running r (reclaim_row outside now r) e refl (λ n. refl) requeued

  -- A new row has its own name only.
  pub new_row-named :
      (now : ℕ) (n : JobName) (payload : Text) (tries id : ℕ) (m : JobName)
      → has_name m (new_row outside now n payload tries id) ≡ true
      → m ≡ n
  unfolding has_name
  new_row-named now n payload tries id m h =
      JobName-ext m n (sym (text_eq→≡ n.type m.type (and_left _ _ (and_left _ _ h))))
        (sym (same_site→≡ n.site_id m.site_id (and_right _ _ h)))
        (sym (text_eq→≡ n.job_key m.job_key (and_right _ _ (and_left _ _ h))))
