-- ===== src/CallRcu/Order.antt =====
-- In which order `call_rcu_thread` invokes its callbacks, and when: src/urcu-call-rcu-impl.h.
use userspace_rcu.Prelude.{
  ℕ, ◌+◌, ◌≡◌, ◌⊎◌, inl, inr, refl, Bool, List, [], ◌∷◌, ◌++◌, arith, is_empty, Bool-cases, sym, ap,
  ◌∙◌,
}
use userspace_rcu.CallRcu.Thread.{
  Place, enter, top, pausing, paused, unpausing, splice, synchronize, grace, invoke, test_stop,
  test_empty, wait, call, asleep, again, clear, stopping, exited, Pc, outside, counting, looking,
  resetting, calling, State, thread_step, woken, waker_step, is_outside, Event, run_thread,
  interrupt, go, queue, ask_stop, ask_pause, end_pause, begin, step, run, call_rcu_data_init,
}
use userspace_rcu.Prelude.{◌≤◌, length, length-append, append_assoc, append-nil, eq_nil_of_is_empty}

-- the callbacks taken from the queue and not invoked yet
abbrev pub batch : Place → List ℕ
batch (synchronize cbs) = cbs
batch (grace cbs) = cbs
batch (invoke n cbs) = cbs
batch _ = []

-- how many callbacks are known to be old enough where the thread stands
abbrev Old : Place → (invoked called_at settled : ℕ) → Type 0
Old (grace cbs) n a d = (n ≤ d) × (n + length cbs ≤ a)
Old (invoke _ cbs) n a d = n + length cbs ≤ d
Old _ n a d = n ≤ d

record Inv (s : State) : Type 0 where
  order : s.queued ≡ s.invoked ++ (batch s.place ++ s.cbs)
  called : s.called_at ≤ length s.queued
  settled : s.settled ≤ length s.queued
  old : Old s.place (length s.invoked) s.called_at s.settled

length-batch : (q i b c : List ℕ) → q ≡ i ++ (b ++ c) → length q ≡ length i + length b + length c
length-batch q i b c e = omega (arith, ap length e, length-append i (b ++ c), length-append b c)

at_place :
    (p : Place) (s : State)
    → s.place ≡ p
    → Inv s
    → (s.queued ≡ s.invoked ++ (batch p ++ s.cbs)) × Old p (length s.invoked) s.called_at s.settled
at_place p s e v = (rw e at v.order, rw e at v.old)

thread_step-Inv : (p : Place) (s : State) → s.place ≡ p → Inv s → Inv (thread_step p s)
unfolding thread_step
thread_step-Inv enter s e v = ground arith
thread_step-Inv top s e v = ground arith
thread_step-Inv pausing s e v = ground arith
thread_step-Inv paused s e v = ground arith
thread_step-Inv unpausing s e v = ground arith
thread_step-Inv splice s e v =
    let (o, l) = at_place splice s e v in
    elim (Bool-cases (is_empty s.cbs)) [
      | inl none ↦ rw none record {
        order = o ∙ ap (λ x. s.invoked ++ x) (eq_nil_of_is_empty s.cbs none);
        called = v.called;
        settled = v.settled;
        old = l;
      }
      | inr some ↦ rw some record {
        order = o ∙ ap (λ x. s.invoked ++ x) (sym (append-nil s.cbs));
        called = v.called;
        settled = v.settled;
        old = l;
      }
    ]
thread_step-Inv (synchronize cbs) s e v = ground (arith, length-batch s.queued s.invoked cbs s.cbs)
thread_step-Inv (grace cbs) s e v = ground arith
thread_step-Inv (invoke n []) s e v = ground arith
thread_step-Inv (invoke n (c ∷ cbs)) s e v =
    let (o, l) = at_place (invoke n (c ∷ cbs)) s e v in
    record {
      order = o ∙ sym (append_assoc s.invoked (c ∷ []) (cbs ++ s.cbs));
      called = v.called;
      settled = v.settled;
      old = omega (arith, l, length-append s.invoked (c ∷ []));
    }
thread_step-Inv test_stop s e v = ground arith
thread_step-Inv test_empty s e v = ground arith
thread_step-Inv wait s e v = ground arith
thread_step-Inv call s e v = ground arith
thread_step-Inv asleep s e v = v
thread_step-Inv again s e v = ground arith
thread_step-Inv clear s e v = ground arith
thread_step-Inv stopping s e v = ground arith
thread_step-Inv exited s e v = v

woken-cases : (p : Place) → (woken p ≡ p) ⊎ ((p ≡ asleep) × (woken p ≡ wait))
woken-cases enter = inl refl
woken-cases top = inl refl
woken-cases pausing = inl refl
woken-cases paused = inl refl
woken-cases unpausing = inl refl
woken-cases splice = inl refl
woken-cases (synchronize l) = inl refl
woken-cases (grace l) = inl refl
woken-cases (invoke n l) = inl refl
woken-cases test_stop = inl refl
woken-cases test_empty = inl refl
woken-cases wait = inl refl
woken-cases call = inl refl
woken-cases asleep = inr (refl, refl)
woken-cases again = inl refl
woken-cases clear = inl refl
woken-cases stopping = inl refl
woken-cases exited = inl refl

woken-Inv : (s : State) → Inv s → Inv (record s { place = woken s.place })
woken-Inv s v = elim (woken-cases s.place) [
  | inl e ↦ rw e v
  | inr (a, e) ↦ rw e (
      let (o, l) = at_place asleep s a v in
      record { order = o; called = v.called; settled = v.settled; old = l })
]

waker_step-Inv : (i : ℕ) (pc : Pc) (s : State) → Inv s → Inv (waker_step i pc s)
unfolding waker_step
waker_step-Inv i outside s v = v
waker_step-Inv i counting s v = record {
  order = v.order;
  called = v.called;
  settled = v.settled;
  old = v.old;
}
waker_step-Inv i looking s v = record {
  order = v.order;
  called = v.called;
  settled = v.settled;
  old = v.old;
}
waker_step-Inv i resetting s v = record {
  order = v.order;
  called = v.called;
  settled = v.settled;
  old = v.old;
}
waker_step-Inv i calling s v =
    let w = woken-Inv s v in
    record { order = w.order; called = w.called; settled = w.settled; old = w.old }

append-queued : (q i b c h : List ℕ) → q ≡ i ++ (b ++ c) → q ++ h ≡ i ++ (b ++ (c ++ h))
append-queued q i b c h e =
    ap (λ l. l ++ h) e ∙ append_assoc i (b ++ c) h ∙ ap (λ l. i ++ l) (append_assoc b c h)

queue-Inv : (i head : ℕ) (s : State) → Inv s → Inv (begin (queue i head) s)
unfolding begin
queue-Inv i head s v = record {
  order = append-queued s.queued s.invoked (batch s.place) s.cbs (head ∷ []) v.order;
  settled = omega (arith, v.settled, length-append s.queued (head ∷ []));
  called = omega (arith, v.called, length-append s.queued (head ∷ []));
  old = v.old;
}

step-Inv : (e : Event) (s : State) → Inv s → Inv (step e s)
unfolding step begin
step-Inv run_thread s v = thread_step-Inv s.place s refl v
step-Inv interrupt s v = woken-Inv s v
step-Inv (go i) s v = waker_step-Inv i (s.waker i) s v
step-Inv (queue i head) s v = elim (Bool-cases (is_outside (s.waker i))) [
  | inl o ↦ rw o (queue-Inv i head s v)
  | inr o ↦ rw o v
]
step-Inv (ask_stop i) s v = elim (Bool-cases (is_outside (s.waker i))) [
  | inl o ↦ rw o record { order = v.order; called = v.called; settled = v.settled; old = v.old }
  | inr o ↦ rw o v
]
step-Inv (ask_pause i) s v = elim (Bool-cases (is_outside (s.waker i))) [
  | inl o ↦ rw o record { order = v.order; called = v.called; settled = v.settled; old = v.old }
  | inr o ↦ rw o v
]
step-Inv end_pause s v = record {
  order = v.order;
  called = v.called;
  settled = v.settled;
  old = v.old;
}

run-Inv : (es : List Event) (s : State) → Inv s → Inv (run es s)
unfolding run
run-Inv [] s v = v
run-Inv (e ∷ es) s v = run-Inv es (step e s) (step-Inv e s v)

settled_of : (p : Place) (n a d : ℕ) → Old p n a d → n ≤ d
settled_of enter n a d o = o
settled_of top n a d o = o
settled_of pausing n a d o = o
settled_of paused n a d o = o
settled_of unpausing n a d o = o
settled_of splice n a d o = o
settled_of (synchronize l) n a d o = o
settled_of (grace l) n a d o = o.0
settled_of (invoke m l) n a d o = omega arith
settled_of test_stop n a d o = o
settled_of test_empty n a d o = o
settled_of wait n a d o = o
settled_of call n a d o = o
settled_of asleep n a d o = o
settled_of again n a d o = o
settled_of clear n a d o = o
settled_of stopping n a d o = o
settled_of exited n a d o = o

-- In every interleaving the callbacks invoked so far, those in the batch of `call_rcu_thread` and
-- those in the queue are, in this order, the callbacks queued so far, so that each is invoked once
-- and in the order of its `call_rcu`; and each one invoked was queued before the call of a
-- `synchronize_rcu` that has returned.
pub run-settled :
    (rt : Bool) (es : List Event)
    → let s = run es (call_rcu_data_init rt) in
      (s.queued ≡ s.invoked ++ (batch s.place ++ s.cbs))
      × (length s.invoked ≤ s.settled)
      × (s.settled ≤ length s.queued)
run-settled rt es =
    let v = run-Inv es (call_rcu_data_init rt) (ground arith) in
    (v.order, settled_of _ _ _ _ v.old, v.settled)
