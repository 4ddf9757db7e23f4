-- ===== src/Wxverify/Jobs/Lanes/Slots.antt =====
-- The slots of the two lanes, each with the job that its lane runs.
use home_assistant_apps.Prelude.{
  ◌≡◌, refl, sym, ap, ◌∙◌, ◌⊎◌, inl, inr, [], ◌∷◌, All, Bool, true, false, ◌&&◌, Option, none, some,
  Bool-cases, arith,
}
use home_assistant_apps.Wxverify.Jobs.{Row, Table, is_running}
use home_assistant_apps.Wxverify.Jobs.Claim.{Lane, main, current_obs, is_current_obs, in_lane}
use home_assistant_apps.Wxverify.Jobs.Lanes.{Job, Workers, set_job, lane_of}
use home_assistant_apps.Wxverify.Jobs.Lanes.Outer.{IsOwned}

Lane-cases :
    (a b : Lane)
    → (a ≡ b) ⊎ ((j : Option Job) (jobs : Lane → Option Job) → set_job b j jobs a ≡ jobs a)
Lane-cases main main = inl refl
Lane-cases main current_obs = inr (λ j jobs. refl)
Lane-cases current_obs main = inr (λ j jobs. refl)
Lane-cases current_obs current_obs = inl refl

pub set_job-same : (a : Lane) (j : Option Job) (jobs : Lane → Option Job) → set_job a j jobs a ≡ j
set_job-same main j jobs = refl
set_job-same current_obs j jobs = refl

pub lane_of-in_lane : (lane : Lane) (r : Row) → in_lane lane r ≡ true → lane_of r ≡ lane
lane_of-in_lane main r e = elim (Bool-cases (is_current_obs r)) [
  | inl h ↦ grind arith
  | inr h ↦ rw h refl
]
lane_of-in_lane current_obs r e = rw e refl

-- A row of another lane, or one that does not run, is not touched by a lane's new job.
pub kept :
    (lane : Lane) (j : Option Job) (w : Workers) (x : Row)
    → (lane_of x ≡ lane
        → w.jobs lane ≡ some (record { id = x.id; type = x.type })
        → is_running x.status ≡ true
        → ⊥)
    → IsOwned w.jobs x
    → IsOwned (set_job lane j w.jobs) x
kept lane j w x not_this owned runs = elim (Lane-cases (lane_of x) lane) [
  | inl same ↦ absurd (not_this same (ap w.jobs (sym same) ∙ owned runs) runs)
  | inr other ↦ other j w.jobs ∙ owned runs
]

pub idle :
    (lane : Lane) (j : Option Job) (w : Workers) (x : Row)
    → w.jobs lane ≡ none
    → IsOwned w.jobs x
    → IsOwned (set_job lane j w.jobs) x
idle lane j w x none_there owned = kept lane j w x (λ same there runs. cc) owned

pub All-both :
    (P Q R : Row → Type 0) (t : Table) → ((x : Row) → P x → Q x → R x) → All P t → All Q t → All R t
All-both P Q R [] k h h' = tt
All-both P Q R (x ∷ t) k h h' = (k x h.0 h'.0, All-both P Q R t k h.1 h'.1)

pub held_is : (o : Option Job) (a b : Job) → o ≡ some a → o ≡ some b → a ≡ b
held_is o a b e f = cc

pub and_all : (a b c : Bool) → a ≡ true → b ≡ true → c ≡ true → (a && b && c) ≡ true
and_all a b c e f g = rw (e, f, g) refl

pub clash : (b : Bool) → b ≡ true → b ≡ false → ⊥
clash b e f = grind arith
