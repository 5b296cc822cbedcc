-- ===== src/Orchestrator/Tasks/Cleanup.antt =====
-- The tasks that are shown as running are those of calls that are at work.
use yucca.Common.{
  ℕ, ◌==◌, ==_iff, nat_eq-ne, ◌≡◌, refl, ap, ◌∙◌, sym, ◌≢◌, inl, inr, Bool, true, false, Option,
  none, some, arith, Bool-cases,
}
use yucca.Orchestrator.{TaskType}
use yucca.Orchestrator.Tasks.{
  Task, System, Phase, absent, finished, prepared, working, Step, admit, admit_restore, launch,
  fail, finish, Reachable, start, step, can_start, start_task, end_task, set, move, launched, ended,
}

-- An active task belongs to a call at work on its repository, and has a controller.
pub record IsOwned (s : System) : Type 0 where
  pub worker :
      (id : ℕ) (t : Task)
      → s.running.active_tasks id ≡ some t
      → (c : ℕ) × (kind : TaskType) × (s.calls c ≡ working id kind)
  pub controlled : (id : ℕ) → can_start id s.running ≡ true → s.running.controllers id ≡ none
  pub held : (id : ℕ) → can_start id s.running ≡ false → s.running.controllers id ≢ none

abbrev waiting : Phase → Bool
waiting absent = true
waiting finished = true
waiting (prepared id kind) = true
waiting (working id kind) = false

set-other :
    (c d : ℕ) (phase old : Phase) (calls : ℕ → Phase)
    → waiting (calls c) ≡ true
    → waiting old ≡ false
    → calls d ≡ old
    → set c phase calls d ≡ old
set-other c d phase old calls w n e = elim (Bool-cases (d == c)) [
  | inl same ↦ let h : d ≡ c = (==_iff d c).0 same in absurd (cc (ap calls h, e, w, n))
  | inr other ↦ ground arith
]

move-IsOwned :
    (c : ℕ) (phase : Phase) (s : System)
    → waiting (s.calls c) ≡ true
    → IsOwned s
    → IsOwned (move c phase s)
move-IsOwned c phase s w o = record {
  worker = λ id t e.
      let (d, kind, h) = o.worker id t e in
      (d, kind, set-other c d phase (working id kind) s.calls w refl h);
  controlled = o.controlled;
  held = o.held;
}

launch-IsOwned :
    (c id : ℕ) (kind : TaskType) (log_id signal : Option ℕ) (s : System)
    → s.calls c ≡ prepared id kind
    → IsOwned s
    → IsOwned (launched c id kind log_id signal s)
unfolding start_task
launch-IsOwned c id kind log_id signal s p o =
    let w : waiting (s.calls c) ≡ true = ap waiting p in
    record {
      worker = λ r t e. elim (Bool-cases (r == id)) [
        | inl same ↦ (c, kind, ground arith)
        | inr other ↦
            let (d, k, h) = o.worker r t (ground arith) in
            (d, k, set-other c d (working id kind) (working r k) s.calls w refl h)
      ];
      controlled = λ r e. ground (arith, o.controlled r);
      held = λ r e. elim (Bool-cases (r == id)) [
        | inl same ↦ ground arith
        | inr other ↦ ground (arith, o.held r)
      ];
    }

abbrev place : Phase → ℕ
place absent = 0
place finished = 0
place (prepared id kind) = id
place (working id kind) = id

set-working :
    (c d id r : ℕ) (kind k : TaskType) (phase : Phase) (calls : ℕ → Phase)
    → r ≢ id
    → calls c ≡ working id kind
    → calls d ≡ working r k
    → set c phase calls d ≡ working r k
set-working c d id r kind k phase calls n p h = elim (Bool-cases (d == c)) [
  | inl same ↦ let e : d ≡ c = (==_iff d c).0 same in absurd (n (ap place (sym h ∙ ap calls e ∙ p)))
  | inr other ↦ ground arith
]

finish-IsOwned :
    (c id : ℕ) (kind : TaskType) (s : System)
    → s.calls c ≡ working id kind
    → IsOwned s
    → IsOwned (ended c id s)
unfolding end_task
finish-IsOwned c id kind s p o = record {
  worker = λ r t e. elim (Bool-cases (r == id)) [
    | inl same ↦ absurd (ground arith)
    | inr other ↦
        let (d, k, h) = o.worker r t (ground arith) in
        (d, k, set-working c d id r kind k finished s.calls (nat_eq-ne r id other) p h)
  ];
  controlled = λ r e. ground (arith, o.controlled r);
  held = λ r e. elim (Bool-cases (r == id)) [
    | inl same ↦ absurd (ground arith)
    | inr other ↦ ground (arith, o.held r)
  ];
}

step-IsOwned : {s t : System} → Step s t → IsOwned s → IsOwned t
step-IsOwned (admit s c id kind free new) o = move-IsOwned c (prepared id kind) s (ap waiting new) o
step-IsOwned (admit_restore s c id new) o =
    move-IsOwned c (prepared id TaskType.restore) s (ap waiting new) o
step-IsOwned (launch s c id kind log_id signal p) o = launch-IsOwned c id kind log_id signal s p o
step-IsOwned (fail s c id kind p) o = move-IsOwned c finished s (ap waiting p) o
step-IsOwned (finish s c id kind p) o = finish-IsOwned c id kind s p o

-- In every state that the calls reach, in whatever order they run, a task that is shown as running belongs
-- to a call that is at work on its repository, so that none is left when the calls have ended or failed,
-- and a task can be cancelled exactly when it is shown.
pub Reachable-IsOwned : {s : System} → Reachable s → IsOwned s
Reachable-IsOwned start = record {
  worker = λ id t e. absurd (ground arith);
  controlled = λ id e. refl;
  held = λ id e. absurd (ground arith);
}
Reachable-IsOwned (step s t r next) = step-IsOwned next (Reachable-IsOwned r)
