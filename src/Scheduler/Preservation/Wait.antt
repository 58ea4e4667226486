-- ===== src/Scheduler/Preservation/Wait.antt =====
-- `block_current_on`, `wake_one`, `sleep_current_until` and `expire_sleepers` keep the invariant;
-- which tasks they block and wake.
use x.Base.{
  ℕ, ◌≡◌, ◌∙◌, refl, Bool, true, false, not, ◌||◌, Option, none, some, List, [], ◌∷◌, map, ◌==◌,
  if◌then◌else◌, arith, contains, inl, inr, Bool-cases, Option-cases, ◌&&◌, ◌⊎◌,
}
use x.Scheduler.Task.{
  TaskId, TaskId_Eq, TaskState_Eq, ready, blocked, TaskControlBlock, task_id_eq_iff,
}
use x.Scheduler.WaitQueue.{WaitQueue}
use x.Scheduler.SleepQueue
use x.Scheduler.SleepQueue.{SleepQueue}
use x.Scheduler.SleepQueue.Order
use x.Scheduler.State.{Scheduler, task, state}
use x.Scheduler.Slots.{task-write, task-eq_some}
use x.Scheduler.Waiting.{wake_from, wake_one, wake, wake_all, expire_sleepers}
use x.Scheduler.Invariant.{Inv, in_state, to_state, enqueue-Inv}
use x.Scheduler.Preservation.Ready.{enqueued}

abbrev pub is_blocked : Scheduler → TaskId → Bool
is_blocked s id = in_state blocked (task s id)

pub wake-kept : (s : Scheduler) (id : TaskId) → is_blocked s id ≡ false → wake s id ≡ (s, false)
unfolding wake state
wake-kept s id h = ground arith

pub wake-moved :
    (s : Scheduler) (id : TaskId) (t : TaskControlBlock)
    → task s id ≡ some t
    → (t.state == blocked) ≡ true
    → contains s.ready.queue id ≡ false
    → wake s id ≡ (enqueued s id t, true)
unfolding wake state
wake-moved s id t e b c = ground arith

-- One round wakes the task exactly if it is blocked, and changes no other task's state.
abbrev pub Wakes : Scheduler → TaskId → Scheduler × Bool → Type 0
Wakes s id (s', woke) =
    Inv s'
    × (woke ≡ is_blocked s id)
    × ((j : TaskId) → is_blocked s' j ≡ (if id == j then false else is_blocked s j))
    × ((j : TaskId)
        → in_state ready (task s' j) ≡ (in_state ready (task s j) || (id == j && is_blocked s j)))
    × (s'.current ≡ s.current)

pub wake-Wakes : (s : Scheduler) (id : TaskId) → Inv s → Wakes s id (wake s id)
wake-Wakes s id v = elim (Option-cases (task s id)) [
  | inl e ↦ rw (wake-kept s id (rw e refl)) (
    v,
    rw e,
    λ j. ground (arith, task_id_eq_iff id j),
    λ j. ground (arith, task_id_eq_iff id j),
    refl,
  )
  | inr (t, e) ↦ elim (Bool-cases (t.state == blocked)) [
    | inl b ↦ rw (wake-moved s id t e b (ground (arith, v.queued id))) (
      enqueue-Inv s id t v e (ground arith),
      ground arith,
      λ j. ground (
        arith,
        task_id_eq_iff id j,
        task-write s id (to_state ready t) j e (task-eq_some s id e).1,
      ),
      λ j. ground (
        arith,
        task_id_eq_iff id j,
        task-write s id (to_state ready t) j e (task-eq_some s id e).1,
      ),
      refl,
    )
    | inr b ↦ rw (wake-kept s id (rw e b)) (
      v,
      ground arith,
      λ j. ground (arith, task_id_eq_iff id j),
      λ j. ground (arith, task_id_eq_iff id j),
      refl,
    )
  ]
]

abbrev pub WakesAll : Scheduler → List TaskId → Scheduler × List TaskId → Type 0
WakesAll s ids (s', woken) =
    Inv s'
    × ((j : TaskId) → contains woken j ≡ (is_blocked s j && contains ids j))
    × ((j : TaskId) → is_blocked s' j ≡ (is_blocked s j && not (contains ids j)))
    × ((j : TaskId)
        → in_state ready (task s' j)
          ≡ (in_state ready (task s j) || (is_blocked s j && contains ids j)))
    × (s'.current ≡ s.current)

wake_all-WakesAll : (s : Scheduler) (ids : List TaskId) → Inv s → WakesAll s ids (wake_all s ids)
unfolding wake_all contains
wake_all-WakesAll s [] v = (v, (λ j. ground arith), (λ j. ground arith), (λ j. ground arith), refl)
wake_all-WakesAll s (id ∷ ids) v =
    let one = wake-Wakes s id v in
    let rest = wake_all-WakesAll (wake s id).0 ids one.0 in
    (
      rest.0,
      λ j. ground (arith, one.1, one.2 j, rest.1 j, task_id_eq_iff id j),
      λ j. ground (arith, one.1, one.2 j, rest.2 j, task_id_eq_iff id j),
      λ j. ground (arith, one.1, one.2 j, one.3 j, rest.3 j, task_id_eq_iff id j),
      rest.4 ∙ one.4,
    )

-- In a scheduler that satisfies the invariant, and with a valid queue of sleepers (sorted, each task at
-- most once), expiry wakes exactly the blocked tasks whose deadline has come: those are reported, and become
-- ready; no other task changes between blocked, ready and neither.
pub expire_sleepers-WakesAll :
    (s : Scheduler) (now : ℕ) (sleepers : SleepQueue)
    → Inv s
    → Order.IsValid sleepers
    → let (s', sleepers', woken) = expire_sleepers s now sleepers in
      let due = map (λ e. e.task) (Order.keep (Order.due now) sleepers.entries) in
      WakesAll s due (s', woken)
      × (sleepers'.entries ≡ Order.keep (Order.later now) sleepers.entries)
unfolding expire_sleepers
expire_sleepers-WakesAll s now sleepers v w =
    let (out, left) = Order.expire_until-keep sleepers now w in
    (rw (← out) (wake_all-WakesAll s (SleepQueue.expire_until sleepers now).1 v), left)

pub expire_sleepers-Inv :
    (s : Scheduler) (now : ℕ) (sleepers : SleepQueue)
    → Inv s
    → Inv (expire_sleepers s now sleepers).0
unfolding expire_sleepers
expire_sleepers-Inv s now sleepers v =
    (wake_all-WakesAll s (SleepQueue.expire_until sleepers now).1 v).0

-- What `wake_one` does with the tasks that wait: it drops those that are not blocked, up to the
-- first that is; that one becomes ready, and the tasks behind it go on waiting.
abbrev pub WakesFirst : Scheduler → List TaskId → Scheduler × List TaskId × Option TaskId → Type 0
WakesFirst s [] r = r ≡ (s, [], none)
WakesFirst s (id ∷ rest) r =
    ((is_blocked s id ≡ false) × WakesFirst s rest r)
    ⊎ ((t : TaskControlBlock) × (task s id ≡ some t)
        × (t.state ≡ blocked)
        × (r ≡ (enqueued s id t, rest, some id)))

wake_from-kept :
    (s : Scheduler) (id : TaskId) (rest : List TaskId)
    → is_blocked s id ≡ false
    → wake_from s (id ∷ rest) ≡ wake_from s rest
unfolding wake_from state
wake_from-kept s id rest h = ground arith

wake_from-moved :
    (s : Scheduler) (id : TaskId) (rest : List TaskId) (t : TaskControlBlock)
    → task s id ≡ some t
    → (t.state == blocked) ≡ true
    → contains s.ready.queue id ≡ false
    → wake_from s (id ∷ rest) ≡ (enqueued s id t, rest, some id)
unfolding wake_from state
wake_from-moved s id rest t e b c = ground arith

wake_from-blocked :
    (s : Scheduler) (id : TaskId) (rest : List TaskId)
    → Inv s
    → is_blocked s id ≡ true
    → WakesFirst s (id ∷ rest) (wake_from s (id ∷ rest))
wake_from-blocked s id rest v b = elim (Option-cases (task s id)) [
  | inl e ↦ absurd (cc (b, e))
  | inr (t, e) ↦ inr (
    t,
    e,
    ground arith,
    wake_from-moved s id rest t e (ground arith) (ground (arith, v.queued id)),
  )
]

pub wake_from-WakesFirst :
    (s : Scheduler) (ws : List TaskId) → Inv s → WakesFirst s ws (wake_from s ws)
wake_from-WakesFirst s [] v = unfold wake_from in refl
wake_from-WakesFirst s (id ∷ rest) v =
    let later = wake_from-WakesFirst s rest v in
    elim (Bool-cases (is_blocked s id)) [
      | inl b ↦ wake_from-blocked s id rest v b
      | inr b ↦ inl (b, rw (wake_from-kept s id rest b) later)
    ]

WakesFirst-Inv :
    (s : Scheduler) (ws : List TaskId) (r : Scheduler × List TaskId × Option TaskId)
    → Inv s
    → WakesFirst s ws r
    → Inv r.0
WakesFirst-Inv s [] r v h = rw h v
WakesFirst-Inv s (id ∷ rest) r v (inl (_, h)) = WakesFirst-Inv s rest r v h
WakesFirst-Inv s (id ∷ rest) r v (inr (t, e, b, h)) = rw h (enqueue-Inv s id t v e (ground arith))

-- In a scheduler that satisfies the invariant, `wake_one` drops the waiters that are not blocked, wakes the first that is, and leaves the rest.
pub wake_one-WakesFirst :
    (s : Scheduler) (waiters : WaitQueue)
    → Inv s
    → let (s', waiters', woken) = wake_one s waiters in
      WakesFirst s waiters.queue (s', waiters'.queue, woken)
unfolding wake_one
wake_one-WakesFirst s waiters v = wake_from-WakesFirst s waiters.queue v

pub wake_one-Inv : (s : Scheduler) (waiters : WaitQueue) → Inv s → Inv (wake_one s waiters).0
unfolding wake_one
wake_one-Inv s waiters v =
    WakesFirst-Inv s waiters.queue (wake_from s waiters.queue) v
      (wake_from-WakesFirst s waiters.queue v)
