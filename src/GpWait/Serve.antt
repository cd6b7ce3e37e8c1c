-- ===== src/GpWait/Serve.antt =====
-- The steps of a call of `synchronize_rcu` keep the owners of the nodes: src/urcu.c.
use userspace_rcu.Prelude.{
  ℕ, ◌≡◌, refl, inl, inr, true, Option, none, some, [], ◌∷◌, arith, Bool-cases,
}
use userspace_rcu.GpWait.Queue.{
  Place, outside, waiting, leading, locking, moving, starting, grace, unlocking, waking, returned,
  State, call_step, take_lock,
}
use userspace_rcu.GpWait.Owners.{is_of, Inv}

take_lock-Inv :
    (o : Option ℕ) (i : ℕ) (s : State)
    → s.lock ≡ o
    → s.place i ≡ locking
    → Inv s
    → Inv (take_lock o i s)
unfolding take_lock
take_lock-Inv (some k) i s d e v = v
take_lock-Inv none i s d e v = record {
  queued = λ j. ground (arith, v.queued j);
  batched = λ k j. ground (arith, v.batched k j);
  once = v.once;
  each = λ k. ground (arith, v.each k);
  member = λ j o. ground (arith, v.member j);
  first_queued = λ j f. ground (arith, v.first_queued j);
  self = λ j. ground (arith, v.self j, v.queued j, v.first_queued j);
  one_first = λ j k f g. ground (arith, v.one_first j k);
  has_first = λ n. let (k, f) = v.has_first n in (k, ground arith);
  kept = λ j. ground (arith, v.kept j);
  set_running = λ j. ground (arith, v.set_running j);
  not_running = λ j. ground (arith, v.not_running j);
  late = λ j. ground (arith, v.late j);
  late_batch = λ k j b. ground (arith, v.late_batch k j);
  late_woken = λ j. ground (arith, v.late_woken j);
  old = v.old;
  locked = λ j. ground (arith, v.locked j, rw d at v.locked j);
  free = λ n. ground arith;
  held = λ j h. ground (arith, v.free d, rw d at v.locked j);
}

pub call_step-Inv : (i : ℕ) (p : Place) (s : State) → s.place i ≡ p → Inv s → Inv (call_step i p s)
unfolding call_step
call_step-Inv i outside s e v = v
call_step-Inv i waiting s e v = elim (Bool-cases (s.woken i)) [
  | inl w ↦ rw w record {
    queued = λ j. ground (arith, v.queued j);
    batched = λ k j. ground (arith, v.batched k j);
    once = v.once;
    each = λ k. ground (arith, v.each k);
    member = λ j o. ground (arith, v.member j);
    first_queued = λ j f. ground (arith, v.first_queued j);
    self = λ j. ground (arith, v.self j, v.queued j, v.first_queued j);
    one_first = λ j k f g. ground (arith, v.one_first j k);
    has_first = λ n. let (k, f) = v.has_first n in (k, ground arith);
    kept = λ j. ground (arith, v.kept j);
    set_running = λ j. ground (arith, v.set_running j);
    not_running = λ j. ground (arith, v.not_running j);
    late = λ j. ground (arith, v.late j, v.late_woken i);
    late_batch = λ k j b. ground (arith, v.late_batch k j, v.batched k j);
    late_woken = λ j. ground (arith, v.late_woken j);
    old = v.old;
    locked = λ j. ground (arith, v.locked j);
    free = v.free;
    held = λ j. ground (arith, v.held j);
  }
  | inr w ↦ rw w record {
    queued = λ j. ground (arith, v.queued j);
    batched = λ k j. ground (arith, v.batched k j);
    once = v.once;
    each = λ k. ground (arith, v.each k);
    member = λ j o. ground (arith, v.member j);
    first_queued = λ j f. ground (arith, v.first_queued j);
    self = λ j. ground (arith, v.self j, v.queued j, v.first_queued j);
    one_first = λ j k f g. ground (arith, v.one_first j k);
    has_first = λ n. let (k, f) = v.has_first n in (k, ground arith);
    kept = λ j. ground (arith, v.kept j);
    set_running = λ j. ground (arith, v.set_running j);
    not_running = λ j. ground (arith, v.not_running j);
    late = λ j. ground (arith, v.late j);
    late_batch = λ k j b. ground (arith, v.late_batch k j);
    late_woken = λ j. ground (arith, v.late_woken j);
    old = v.old;
    locked = λ j. ground (arith, v.locked j);
    free = v.free;
    held = λ j. ground (arith, v.held j);
  }
]
call_step-Inv i leading s e v = record {
  queued = λ j. ground (arith, v.queued j);
  batched = λ k j. ground (arith, v.batched k j);
  once = v.once;
  each = λ k. ground (arith, v.each k);
  member = λ j o. ground (arith, v.member j);
  first_queued = λ j f. ground (arith, v.first_queued j);
  self = λ j. ground (arith, v.self j, v.queued j, v.first_queued j);
  one_first = λ j k f g. ground (arith, v.one_first j k);
  has_first = λ n. let (k, f) = v.has_first n in (k, ground arith);
  kept = λ j. ground (arith, v.kept j);
  set_running = λ j. ground (arith, v.set_running j);
  not_running = λ j. ground (arith, v.not_running j);
  late = λ j. ground (arith, v.late j);
  late_batch = λ k j b. ground (arith, v.late_batch k j);
  late_woken = λ j. ground (arith, v.late_woken j);
  old = v.old;
  locked = λ j. ground (arith, v.locked j);
  free = v.free;
  held = λ j. ground (arith, v.held j);
}
call_step-Inv i locking s e v = take_lock-Inv s.lock i s refl e v
call_step-Inv i moving s e v = record {
  queued = λ j. ground (arith, v.queued j);
  batched = λ k j. ground (arith, v.batched k j, v.batched i j, v.queued j);
  once = refl;
  each = λ k. ground (arith, v.each k, v.once);
  member = λ j o. ground (arith, v.member j, v.queued j);
  first_queued = λ j f. ground (arith, v.one_first i j);
  self = λ j. ground (arith, v.self j, v.queued j, v.first_queued j);
  one_first = λ j k f g. ground (arith, v.one_first j k);
  has_first = λ n. ground arith;
  kept = λ j. ground (arith, v.kept j);
  set_running = λ j. ground (arith, v.set_running j);
  not_running = λ j. ground (arith, v.not_running j);
  late = λ j. ground (arith, v.late j);
  late_batch = λ k j b. ground (arith, v.late_batch k j, v.old j, v.late_batch i j);
  late_woken = λ j. ground (arith, v.late_woken j);
  old = v.old;
  locked = λ j. ground (arith, v.locked j);
  free = v.free;
  held = λ j. ground (arith, v.held j);
}
call_step-Inv i (starting l) s e v = record {
  queued = λ j. ground (arith, v.queued j);
  batched = λ k j. ground (arith, v.batched k j);
  once = v.once;
  each = λ k. ground (arith, v.each k);
  member = λ j o. ground (arith, v.member j);
  first_queued = λ j f. ground (arith, v.first_queued j);
  self = λ j. ground (arith, v.self j, v.queued j, v.first_queued j);
  one_first = λ j k f g. ground (arith, v.one_first j k);
  has_first = λ n. let (k, f) = v.has_first n in (k, ground arith);
  kept = λ j. ground (arith, v.kept j);
  set_running = λ j. ground (arith, v.set_running j);
  not_running = λ j. ground (arith, v.not_running j);
  late = λ j. ground (arith, v.late j);
  late_batch = λ k j b. ground (arith, v.late_batch k j);
  late_woken = λ j. ground (arith, v.late_woken j);
  old = λ j. ground (arith, v.old j);
  locked = λ j. ground (arith, v.locked j);
  free = λ n. ground (arith, v.locked i);
  held = λ j h. ground (arith, v.held j, v.held i, v.locked i, v.locked j);
}
call_step-Inv i (grace l) s e v = record {
  queued = λ j. ground (arith, v.queued j);
  batched = λ k j. ground (arith, v.batched k j);
  once = v.once;
  each = λ k. ground (arith, v.each k);
  member = λ j o. ground (arith, v.member j);
  first_queued = λ j f. ground (arith, v.first_queued j);
  self = λ j. ground (arith, v.self j, v.queued j, v.first_queued j);
  one_first = λ j k f g. ground (arith, v.one_first j k);
  has_first = λ n. let (k, f) = v.has_first n in (k, ground arith);
  kept = λ j. ground (arith, v.kept j);
  set_running = λ j. ground (arith, v.set_running j);
  not_running = λ j. ground (arith, v.not_running j);
  late = λ j. ground (arith, v.late j, v.held i, v.locked i, v.locked j);
  late_batch = λ k j b. ground (arith, v.late_batch k j, v.held i);
  late_woken = λ j. ground (arith, v.late_woken j);
  old = v.old;
  locked = λ j. ground (arith, v.locked j);
  free = λ n. ground (arith, v.locked i);
  held = λ j h. ground (arith, v.held j, v.held i, v.locked i, v.locked j);
}
call_step-Inv i (unlocking l) s e v = record {
  queued = λ j. ground (arith, v.queued j);
  batched = λ k j. ground (arith, v.batched k j);
  once = v.once;
  each = λ k. ground (arith, v.each k);
  member = λ j o. ground (arith, v.member j);
  first_queued = λ j f. ground (arith, v.first_queued j);
  self = λ j. ground (arith, v.self j, v.queued j, v.first_queued j);
  one_first = λ j k f g. ground (arith, v.one_first j k);
  has_first = λ n. let (k, f) = v.has_first n in (k, ground arith);
  kept = λ j. ground (arith, v.kept j);
  set_running = λ j. ground (arith, v.set_running j);
  not_running = λ j. ground (arith, v.not_running j);
  late = λ j. ground (arith, v.late j);
  late_batch = λ k j b. ground (arith, v.late_batch k j);
  late_woken = λ j. ground (arith, v.late_woken j);
  old = v.old;
  locked = λ j. ground (arith, v.locked i, v.locked j);
  free = λ n. ground (arith, v.held i);
  held = λ j h. ground (arith, v.locked i, v.locked j);
}
call_step-Inv i (waking []) s e v = record {
  queued = λ j. ground (arith, v.queued j);
  batched = λ k j. ground (arith, v.batched k j);
  once = v.once;
  each = λ k. ground (arith, v.each k);
  member = λ j o. ground (arith, v.member j, v.self j, v.batched i j);
  first_queued = λ j f. ground (arith, v.first_queued j);
  self = λ j. ground (arith, v.self j, v.queued j, v.first_queued j);
  one_first = λ j k f g. ground (arith, v.one_first j k);
  has_first = λ n. let (k, f) = v.has_first n in (k, ground arith);
  kept = λ j. ground (arith, v.kept j);
  set_running = λ j. ground (arith, v.set_running j);
  not_running = λ j. ground (arith, v.not_running j);
  late = λ j. ground (arith, v.late j);
  late_batch = λ k j b. ground (arith, v.late_batch k j);
  late_woken = λ j. ground (arith, v.late_woken j);
  old = v.old;
  locked = λ j. ground (arith, v.locked j);
  free = v.free;
  held = λ j. ground (arith, v.held j);
}
call_step-Inv i (waking (j ∷ l)) s e v =
    let b : is_of i (s.owner j) ≡ true = ground (arith, v.batched i j) in
    record {
      queued = λ k. ground (arith, v.queued k, b);
      batched = λ a k. ground (arith, v.batched a k, v.batched i k, v.each i, b);
      once = v.once;
      each = λ k. ground (arith, v.each k, v.each i);
      member = λ k o. ground (arith, v.member k);
      first_queued = λ k f. ground (arith, v.first_queued k, b);
      self = λ j. ground (arith, v.self j, v.queued j, v.first_queued j);
      one_first = λ j k f g. ground (arith, v.one_first j k);
      has_first = λ n. let (k, f) = v.has_first n in (k, ground arith);
      kept = λ k. ground (arith, v.kept k, v.not_running k);
      set_running = λ j. ground (arith, v.set_running j);
      not_running = λ j. ground (arith, v.not_running j);
      late = λ j. ground (arith, v.late j);
      late_batch = λ a k o. ground (arith, v.late_batch a k);
      late_woken = λ k. ground (arith, v.late_woken k, v.late_batch i j b);
      old = v.old;
      locked = λ j. ground (arith, v.locked j);
      free = v.free;
      held = λ j. ground (arith, v.held j);
    }
call_step-Inv i returned s e v = v
