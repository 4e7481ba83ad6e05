-- ===== src/Workset/OpenUnit/Sealing.antt =====
-- The coordinator and the workers around one open unit, and what its seal means.
use dorganizer.Prelude.{
  ℕ, zero, suc, ◌+◌, ◌*◌, ◌-◌, ◌↔◌, ◌<◌, ◌≤◌, Bool, true, false, none, some, is_some, Bool-cases,
  inl, inr, ◌≡◌, refl, arith, ltb,
}
use dorganizer.Workset.OpenUnit.{
  TaskError, OpenUnit, new_open_unit, seal_locked, task_delivered, end_delivery, task_returned,
  committable,
}

-- A unit with the tasks in the pool, queued or with a worker, and those that returned, with an
-- error and without; `counting` while the coordinator has sent a task and has not counted it.
pub record Around : Type 0 where
  pub unit : OpenUnit
  pub in_flight : ℕ
  pub counting : Bool
  pub succeeded : ℕ
  pub failed : ℕ

abbrev pub opened : ℕ → Around
opened tasks = record {
  unit = new_open_unit tasks;
  in_flight = 0;
  counting = false;
  succeeded = 0;
  failed = 0;
}

abbrev pub sent : Around → Around
sent a = record a { in_flight = suc a.in_flight; counting = true }

abbrev pub counted : Around → Around
counted a = record a { unit = task_delivered a.unit; counting = false }

abbrev pub ended_at : Around → Around
ended_at a = record a { unit = end_delivery a.unit }

abbrev pub returned_well : ℕ → Around → Around
returned_well n a = record a {
  unit = task_returned none a.unit;
  in_flight = n;
  succeeded = suc a.succeeded;
}

abbrev pub returned_badly : ℕ → TaskError → Around → Around
returned_badly n e a = record a {
  unit = task_returned (some e) a.unit;
  in_flight = n;
  failed = suc a.failed;
}

-- The interleavings: `deliver` sends and then counts, up to the expected tasks; delivery ends, early
-- when a stop cuts it short; and a worker returns a task at any time after it was sent.
pub data Step : Around → Around → Type 0 where
  send :
      {a : Around}
      → a.unit.ended ≡ false
      → a.counting ≡ false
      → a.unit.delivered < a.unit.expected
      → Step a (sent a)
  count : {a : Around} → a.counting ≡ true → Step a (counted a)
  end_ : {a : Around} → a.unit.ended ≡ false → a.counting ≡ false → Step a (ended_at a)
  well : {a : Around} (n : ℕ) → a.in_flight ≡ suc n → Step a (returned_well n a)
  badly : {a : Around} (n : ℕ) (e : TaskError) → a.in_flight ≡ suc n → Step a (returned_badly n e a)

pub data Reach (tasks : ℕ) : Around → Type 0 where
  here : Reach tasks (opened tasks)
  next : {a b : Around} → Reach tasks a → Step a b → Reach tasks b

abbrev in_hand : Bool → ℕ
in_hand true = 1
in_hand false = 0

pub record Sound (tasks : ℕ) (a : Around) : Type 0 where
  pub declared : a.unit.expected ≡ tasks
  pub returned : a.unit.completed ≡ a.succeeded + a.failed
  pub balance : a.unit.delivered + in_hand a.counting ≡ a.unit.completed + a.in_flight
  pub within : a.unit.delivered + in_hand a.counting ≤ tasks
  pub quiet : a.unit.ended ≡ true → a.counting ≡ false
  pub seal : a.unit.sealed ≡ true → (a.unit.ended ≡ true) × (a.in_flight ≡ 0)
  pub sealed_when : a.unit.ended ≡ true → a.in_flight ≡ 0 → a.unit.sealed ≡ true
  pub faultless : is_some a.unit.failure ≡ ltb 0 a.failed

opened-Sound : (tasks : ℕ) → Sound tasks (opened tasks)
unfolding new_open_unit
opened-Sound tasks = record {
  declared = refl;
  returned = refl;
  balance = refl;
  within = ground arith;
  quiet = λ h. cc;
  seal = λ h. cc;
  sealed_when = λ h. cc;
  faultless = refl;
}

Step-Sound : {tasks : ℕ} {a b : Around} → Step a b → Sound tasks a → Sound tasks b
unfolding task_delivered end_delivery task_returned seal_locked
Step-Sound (send e c l) h = ground arith
Step-Sound (count c) h = ground arith
Step-Sound (end_ e c) h = ground arith
Step-Sound (well n e) h = ground arith
Step-Sound (badly n x e) h = ground arith

pub Reach-Sound : {tasks : ℕ} {a : Around} → Reach tasks a → Sound tasks a
Reach-Sound {tasks} here = opened-Sound tasks
Reach-Sound (next r s) = Step-Sound s (Reach-Sound r)

-- Whatever the interleaving: a unit may commit exactly when its delivery has ended and each of its
-- declared tasks has returned without an error, so that none is queued or with a worker.
pub committable_lem :
    (tasks : ℕ) (a : Around)
    → Reach tasks a
    → (committable a.unit ≡ true)
      ↔ ((a.unit.ended ≡ true) × (a.in_flight ≡ 0) × (a.succeeded ≡ tasks) × (a.failed ≡ 0))
unfolding committable
committable_lem tasks a r =
    let h = Reach-Sound r in (λ c. ground arith, λ (e, n, s, f). ground arith)

-- A sealed unit has no task queued or with a worker: nothing can still write what it staged.
pub sealed-quiet :
    (tasks : ℕ) (a : Around)
    → Reach tasks a
    → a.unit.sealed ≡ true
    → (a.in_flight ≡ 0) × (a.succeeded + a.failed ≡ a.unit.delivered)
sealed-quiet tasks a r s = let h = Reach-Sound r in ground (arith, h.seal s)

-- On every run that goes on as long as a step is possible, the unit is sealed at some point.
pub data Inevitable : Around → Type 0 where
  done : {a : Around} → a.unit.sealed ≡ true → Inevitable a
  later :
      {a : Around} (b : Around) → Step a b → ((c : Around) → Step a c → Inevitable c) → Inevitable a

-- The steps that are left at most.
abbrev not_ended : Bool → ℕ
not_ended true = 0
not_ended false = 1

abbrev left : ℕ → Around → ℕ
left tasks a =
    3 * (tasks - (a.unit.delivered + in_hand a.counting))
    + (in_hand a.counting + (a.in_flight + not_ended a.unit.ended))

Step-left : {tasks : ℕ} {a b : Around} → Step a b → Sound tasks a → left tasks b < left tasks a
unfolding task_delivered end_delivery task_returned seal_locked
Step-left (send e c l) h = ground arith
Step-left (count c) h = ground arith
Step-left (end_ e c) h = ground arith
Step-left (well n e) h = ground arith
Step-left (badly n x e) h = ground arith

enabled : {tasks : ℕ} (a : Around) → Sound tasks a → a.unit.sealed ≡ false → (b : Around) × Step a b
enabled a h open_ = elim (Bool-cases a.counting) [
  | inl c ↦ (counted a, count c)
  | inr c ↦ elim (Bool-cases a.unit.ended) [
    | inr e ↦ (ended_at a, end_ e c)
    | inl e ↦
        let n = a.in_flight - 1 in (returned_well n a, well n (ground (arith, h.sealed_when e)))
  ]
]

sealed_within : (fuel tasks : ℕ) (a : Around) → Sound tasks a → left tasks a ≤ fuel → Inevitable a
sealed_within zero tasks a h l = elim (Bool-cases a.unit.sealed) [
  | inl s ↦ done s
  | inr s ↦ let (b, step) = enabled a h s in ground (arith, Step-left step h)
]
sealed_within (suc fuel) tasks a h l = elim (Bool-cases a.unit.sealed) [
  | inl s ↦ done s
  | inr s ↦
      let (b, step) = enabled a h s in
      later b step
        (λ c t. sealed_within fuel tasks c (Step-Sound t h) (ground (arith, Step-left t h)))
]

-- However the coordinator and the workers take turns, and whether or not delivery is cut short,
-- the unit is sealed after finitely many steps: the coordinator's wait for it ends.
pub unit_seals : (tasks : ℕ) (a : Around) → Reach tasks a → Inevitable a
unit_seals tasks a r = sealed_within (left tasks a) tasks a (Reach-Sound r) (ground arith)
