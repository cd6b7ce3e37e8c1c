-- ===== src/Lfht/Resize/Served.antt =====
-- A request to resize the hash table of src/rculfhash.c finds a worker, if `resize_initiated` is clear.
use userspace_rcu.Prelude.{
  ℕ, ◌≡◌, refl, Bool, true, false, not, ◌&&◌, ◌==◌, arith, if◌then◌else◌, update, Bool-cases,
  if-cases, inl, inr,
}
use userspace_rcu.Lfht.Resize.{
  Asker, asked, grow_load, grow_swap, shrink_swap, launch_initiated, launch_destroy, launch_queue,
  launch_store, Worker, idle, Table, work, ask, lazy_grow, lazy_count, Event, call_grow, call_count,
  go_ask, go_work, destroy, step, grow_look, shrink_look, has_asked,
}

abbrev pub is_idle : Worker → Bool
is_idle idle = true
is_idle _ = false

-- the thread has changed the target, and has not yet decided whether to queue a work
abbrev pub is_launching : Asker → Bool
is_launching launch_initiated = true
is_launching launch_destroy = true
is_launching launch_queue = true
is_launching _ = false

-- no work is queued or in progress, though the size is not what was asked for
abbrev pub is_neglected : Table → Bool
is_neglected t =
    is_idle t.worker
    && ((t.works == 0)
        && (not t.resize_initiated
            && (not t.in_progress_destroy && not (t.size == t.resize_target))))

abbrev pub IsServed : Table → Type 0
IsServed t = is_neglected t ≡ true → (i : ℕ) × (is_launching (t.asker i) ≡ true)

work-IsServed : (w : Worker) (t : Table) → t.worker ≡ w → IsServed t → IsServed (work w t)
unfolding work
work-IsServed idle t e h =
    if-cases (λ (u : Table). IsServed u) (t.works == 0) (λ _. h) (λ _ n. absurd (ground arith))
work-IsServed w t e h = λ n. absurd (ground arith)

-- a thread moves, and if it was launching it still is
keeps-launching :
    (w : ℕ → Asker) (i j : ℕ) (q : Asker)
    → (is_launching (w i) ≡ true → is_launching q ≡ true)
    → is_launching (w j) ≡ true
    → is_launching (update w i q j) ≡ true
keeps-launching w i j q f l = elim (Bool-cases (i == j)) [
  | inl e ↦ let mine : i ≡ j = ground arith in rw e (f (rw mine l))
  | inr e ↦ rw e l
]

starts-launching : (w : ℕ → Asker) (i : ℕ) → is_launching (update w i launch_initiated i) ≡ true
starts-launching w i = ground arith

moved :
    (i : ℕ) (q : Asker) (t : Table)
    → IsServed t
    → (is_neglected t ≡ true → is_launching (t.asker i) ≡ true → is_launching q ≡ true)
    → IsServed (record t { asker = update t.asker i q })
moved i q t h f n = let (j, l) = h n in (j, keeps-launching t.asker i j q (f n) l)

rests : (a q : Asker) → has_asked a ≡ true → is_launching a ≡ true → is_launching q ≡ true
rests asked q e l = ground arith
rests a q e l = ground arith

ask-IsServed : (i : ℕ) (q : Asker) (t : Table) → t.asker i ≡ q → IsServed t → IsServed (ask i q t)
unfolding ask
ask-IsServed i asked t e h = h
ask-IsServed i (grow_load target) t e h =
    moved i (grow_look target t.resize_target) t h (λ _ l. ground arith)
ask-IsServed i (grow_swap target old) t e h =
    if-cases (λ (u : Table). IsServed u) (t.resize_target == old)
      (λ _ n. (i, starts-launching t.asker i))
      (λ _. moved i (grow_look target t.resize_target) t h (λ _ l. ground arith))
ask-IsServed i (shrink_swap count size) t e h =
    if-cases (λ (u : Table). IsServed u) (t.resize_target == size)
      (λ _ n. (i, starts-launching t.asker i))
      (λ _. moved i (shrink_look count size t.resize_target) t h (λ _ l. ground arith))
ask-IsServed i launch_initiated t e h =
    moved i (if t.resize_initiated then asked else launch_destroy) t h (λ n _. ground arith)
ask-IsServed i launch_destroy t e h =
    moved i (if t.in_progress_destroy then asked else launch_queue) t h (λ n _. ground arith)
ask-IsServed i launch_queue t e h = λ n. absurd (ground arith)
ask-IsServed i launch_store t e h = λ n. absurd (ground arith)

pub step-IsServed : (e : Event) (t : Table) → IsServed t → IsServed (step e t)
unfolding step
step-IsServed (call_grow i size growth) t h =
    if-cases (λ (u : Table). IsServed u) (has_asked (t.asker i))
      (λ e.
        moved i (lazy_grow size growth t.max_nr_buckets) t h
          (λ _ l. rests (t.asker i) (lazy_grow size growth t.max_nr_buckets) e l))
      (λ _. h)
step-IsServed (call_count i auto size count) t h =
    if-cases (λ (u : Table). IsServed u) (has_asked (t.asker i))
      (λ e.
        moved i (lazy_count auto size count t.max_nr_buckets) t h
          (λ _ l. rests (t.asker i) (lazy_count auto size count t.max_nr_buckets) e l))
      (λ _. h)
step-IsServed (go_ask i) t h = ask-IsServed i (t.asker i) t refl h
step-IsServed go_work t h = work-IsServed t.worker t refl h
step-IsServed destroy t h = λ n. absurd (ground arith)
