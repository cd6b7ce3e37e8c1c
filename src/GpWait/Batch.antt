-- ===== src/GpWait/Batch.antt =====
-- Each call of `synchronize_rcu` is served by a whole grace period, its own or one of the call that
-- wakes it: src/urcu.c.
use userspace_rcu.Prelude.{
  ℕ, suc, ◌≤◌, ◌<◌, ◌≡◌, refl, inl, inr, true, false, ◌&&◌, ◌||◌, Option, none, some, List, [], ◌∷◌,
  has, is_empty, arith, Bool-cases, ap, ◌∙◌,
}
use userspace_rcu.GpWait.Queue.{
  Place, outside, waiting, leading, locking, moving, starting, grace, unlocking, waking, returned,
  Owner, nobody, in_queue, of, State, is_resting, begin, skip, Event, call, go, none_registered,
  step, run, initial,
}
use userspace_rcu.GpWait.Owners.{
  batch, is_first, is_serving, is_locked, is_owned, is_queued, is_of, holds, limit, Inv,
}
use userspace_rcu.GpWait.Serve.{call_step-Inv}

has-empty : (l : List ℕ) (j : ℕ) → is_empty l ≡ true → has j l ≡ false
has-empty [] j e = refl
has-empty (x ∷ l) j e = ground arith

begin-Inv : (i : ℕ) (s : State) → is_resting (s.place i) ≡ true → Inv s → Inv (begin i s)
unfolding begin
begin-Inv i s r v =
    let n : is_owned (s.owner i) ≡ false = ground (arith, v.member i) in
    record {
      queued = λ j. ground (arith, v.queued j);
      batched = λ k j. ground (arith, v.batched k j, v.batched k i, v.batched i j, n);
      once = ground (arith, v.once, v.queued i, n);
      each = λ k. ground (arith, v.each k);
      member = λ j o. ground (arith, v.member j);
      first_queued = λ j f. ground (arith, v.first_queued j);
      self = λ j. ground (arith, v.self j, v.queued j, v.first_queued j);
      one_first = λ j k f g. ground (
        arith,
        v.one_first j k,
        v.first_queued j,
        v.queued j,
        has-empty s.queue j,
        v.first_queued k,
        v.queued k,
        has-empty s.queue k,
      );
      has_first = λ n. elim (Bool-cases (is_empty s.queue)) [
        | inl e ↦ (i, ground arith)
        | inr e ↦ let (k, f) = v.has_first e in (k, ground arith)
      ];
      kept = λ j. ground (arith, v.kept j);
      set_running = λ j. ground (arith, v.set_running j);
      not_running = λ j. ground (arith, v.not_running j);
      late = λ j. ground (arith, v.late j);
      late_batch = λ k j b. ground (arith, v.late_batch k j, v.batched i j);
      late_woken = λ j. ground (arith, v.late_woken j);
      old = λ j. ground (arith, v.old j);
      locked = λ j. ground (arith, v.locked j);
      free = v.free;
      held = λ j. ground (arith, v.held j);
    }

skip-Inv : (i : ℕ) (p : Place) (s : State) → s.place i ≡ p → Inv s → Inv (skip i p s)
unfolding skip
skip-Inv i outside s e v = v
skip-Inv i waiting s e v = v
skip-Inv i leading s e v = v
skip-Inv i locking s e v = v
skip-Inv i moving s e v = v
skip-Inv i (starting l) s e v = record {
  queued = λ j. ground (arith, v.queued j);
  batched = λ k j. ground (arith, v.batched k j);
  once = v.once;
  each = λ k. ground (arith, v.each k);
  member = λ j o. ground (arith, v.member j);
  first_queued = λ j f. ground (arith, v.first_queued j);
  self = λ j. ground (arith, v.self j, v.queued j, v.first_queued j);
  one_first = λ j k f g. ground (arith, v.one_first j k);
  has_first = λ n. let (k, f) = v.has_first n in (k, ground arith);
  kept = λ j. ground (arith, v.kept j);
  set_running = λ j. ground (arith, v.set_running j);
  not_running = λ j. ground (arith, v.not_running j);
  late = λ j. ground (arith, v.late j, v.held i, v.locked i, v.locked j);
  late_batch = λ k j b. ground (arith, v.late_batch k j, v.held i);
  late_woken = λ j. ground (arith, v.late_woken j);
  old = λ j. ground (arith, v.old j);
  locked = λ j. ground (arith, v.locked j);
  free = λ n. ground (arith, v.locked i);
  held = λ j h. ground (arith, v.held j, v.held i, v.locked i, v.locked j);
}
skip-Inv i (grace l) s e v = v
skip-Inv i (unlocking l) s e v = v
skip-Inv i (waking l) s e v = v
skip-Inv i returned s e v = v

step-Inv : (e : Event) (s : State) → Inv s → Inv (step e s)
unfolding step
step-Inv (call i) s v = elim (Bool-cases (is_resting (s.place i))) [
  | inl r ↦ rw r (begin-Inv i s r v)
  | inr r ↦ rw r v
]
step-Inv (go i) s v = call_step-Inv i (s.place i) s refl v
step-Inv (none_registered i) s v = skip-Inv i (s.place i) s refl v

run-Inv : (es : List Event) (s : State) → Inv s → Inv (run es s)
unfolding run
run-Inv [] s v = v
run-Inv (e ∷ es) s v = run-Inv es (step e s) (step-Inv e s v)

initial-Inv : Inv initial
initial-Inv = record {
  queued = λ j. refl;
  batched = λ i j. refl;
  once = refl;
  each = λ i. refl;
  member = λ j o. ground arith;
  first_queued = λ j f. ground arith;
  self = λ j f. ground arith;
  one_first = λ j k f. ground arith;
  has_first = λ n. ground arith;
  kept = λ j w. ground arith;
  set_running = λ j f. ground arith;
  not_running = λ j w. ground arith;
  late = λ i. omega arith;
  late_batch = λ i j b. ground arith;
  late_woken = λ j w. ground arith;
  old = λ j. omega arith;
  locked = λ i. refl;
  free = λ n. refl;
  held = λ i h. ground arith;
}

Reached-Inv : (es : List Event) → Inv (run es initial)
Reached-Inv es = run-Inv es initial initial-Inv

-- Grace periods do not overlap.
one_at_a_time :
    (o : Option ℕ) (s : State)
    → s.lock ≡ o
    → Inv s
    → (s.ended ≤ s.started) × (s.started ≤ suc s.ended)
one_at_a_time none s e v = (omega (arith, v.free e), omega (arith, v.free e))
one_at_a_time (some k) s e v =
    let h : is_locked (s.place k) ≡ true = v.locked k ∙ ap (holds k) e ∙ ground arith in
    (ground (arith, v.held k h), ground (arith, v.held k h))

batch_serving : (p : Place) (j : ℕ) → has j (batch p) ≡ true → is_serving p ≡ true
batch_serving outside j h = ground arith
batch_serving waiting j h = ground arith
batch_serving leading j h = ground arith
batch_serving locking j h = ground arith
batch_serving moving j h = ground arith
batch_serving (starting l) j h = refl
batch_serving (grace l) j h = refl
batch_serving (unlocking l) j h = refl
batch_serving (waking l) j h = refl
batch_serving returned j h = ground arith

-- the call that is to wake `j`
abbrev pub Keeper : ℕ → State → Type 0
Keeper j s =
    (k : ℕ) × (((is_first (s.place k) && has j s.queue)
        || (is_serving (s.place k) && has j (batch (s.place k))))
      ≡ true)

owner-Keeper :
    (o : Owner) (j : ℕ) (s : State) → s.owner j ≡ o → is_owned o ≡ true → Inv s → Keeper j s
owner-Keeper nobody j s e n v = ground arith
owner-Keeper in_queue j s e n v =
    let q : has j s.queue ≡ true = v.queued j ∙ ap is_queued e in
    let (k, f) = v.has_first (ground (arith, has-empty s.queue j)) in (k, ground arith)
owner-Keeper (of k) j s e n v =
    let b : has j (batch (s.place k)) ≡ true = v.batched k j ∙ ap (is_of k) e ∙ ground arith in
    (k, ground (arith, batch_serving (s.place k) j b))

-- In every interleaving of any number of calls of `synchronize_rcu`, a call that has returned was
-- queued before some grace period started that has ended since: of the grace periods, which do not
-- overlap, more have ended than had started when the call was queued.
pub returned-served :
    (es : List Event) (i : ℕ)
    → let s = run es initial in
      s.place i ≡ returned
      → (s.since i < s.ended) × (s.ended ≤ s.started) × (s.started ≤ suc s.ended)
returned-served es i r =
    let v = Reached-Inv es in
    let l = one_at_a_time _ _ refl v in
    (
      omega (arith, v.late i, ap (λ p. limit p (run es initial).started (run es initial).ended) r),
      l.0,
      l.1,
    )

-- In every interleaving a call that waits to be woken is in the queue, where another call is to take
-- it, or on the local queue of a call that is still to wake it.
pub waiting-kept :
    (es : List Event) (j : ℕ)
    → let s = run es initial in s.place j ≡ waiting → s.woken j ≡ false → Keeper j s
waiting-kept es j w n = let v = Reached-Inv es in owner-Keeper _ j _ refl (v.kept j (rw w refl) n) v
