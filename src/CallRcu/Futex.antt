-- ===== src/CallRcu/Futex.antt =====
-- The futex of a `struct call_rcu_data` while something is to do for `call_rcu_thread`:
-- src/urcu-call-rcu-impl.h.
use userspace_rcu.Prelude.{
  ℕ, ◌≡◌, ◌≢◌, ◌⊎◌, inl, inr, refl, Bool, true, false, not, ◌&&◌, ◌||◌, List, [], ◌∷◌, arith, ◌==◌,
  is_empty, update, Bool-cases, sym, ◌∙◌,
}
use userspace_rcu.CallRcu.Thread.{
  minus_one, Place, enter, top, pausing, paused, unpausing, splice, synchronize, grace, invoke,
  test_stop, test_empty, wait, call, asleep, again, clear, stopping, exited, Pc, outside, counting,
  looking, resetting, calling, State, thread_step, woken, waker_step, is_outside, Event, run_thread,
  interrupt, go, queue, ask_stop, ask_pause, end_pause, begin, step, run, call_rcu_data_init,
  wake_call_rcu_thread,
}

-- a thread that is still to look at the futex, or is about to reset it
abbrev pub is_coming : Pc → Bool
is_coming counting = true
is_coming looking = true
is_coming resetting = true
is_coming _ = false

-- behind the load that tells a pause, and before the next
abbrev pub is_behind_pause : Place → Bool
is_behind_pause unpausing = true
is_behind_pause splice = true
is_behind_pause (synchronize cbs) = true
is_behind_pause (grace cbs) = true
is_behind_pause (invoke n cbs) = true
is_behind_pause test_stop = true
is_behind_pause test_empty = true
is_behind_pause wait = true
is_behind_pause call = true
is_behind_pause asleep = true
is_behind_pause _ = false

-- behind `cds_wfcq_empty`
abbrev pub is_waiting : Place → Bool
is_waiting wait = true
is_waiting call = true
is_waiting asleep = true
is_waiting _ = false

abbrev pub is_behind_stop : Place → Bool
is_behind_stop test_empty = true
is_behind_stop p = is_waiting p

-- the places that only a thread without URCU_CALL_RCU_RT comes to, and where the futex is 0
abbrev pub is_reset : Place → Bool
is_reset enter = true
is_reset again = true
is_reset _ = false

abbrev pub is_asleep : Place → Bool
is_asleep asleep = true
is_asleep _ = false

-- Something has come up that the thread has not seen at its last look.
abbrev pub has_news : Place → (pause stop : Bool) → (cbs : List ℕ) → Bool
has_news p pause stop cbs =
    (is_behind_pause p && pause)
    || (is_behind_stop p && stop)
    || (is_waiting p && not (is_empty cbs))

abbrev pub Alarm : (futex : ℕ) → (ℕ → Pc) → Type 0
Alarm futex waker = (futex ≢ minus_one) ⊎ ((i : ℕ) × (is_coming (waker i) ≡ true))

abbrev pub WakeUp : (futex : ℕ) → (ℕ → Pc) → Type 0
WakeUp futex waker = (futex ≡ minus_one) ⊎ ((i : ℕ) × (waker i ≡ calling))

pub record Inv (s : State) : Type 0 where
  pub word : (s.futex ≡ 0) ⊎ (s.futex ≡ minus_one)
  pub reset : is_reset s.place ≡ true → s.futex ≡ 0
  pub news : s.rt ≡ false → has_news s.place s.pause s.stop s.cbs ≡ true → Alarm s.futex s.waker
  pub not_rt : is_behind_stop s.place ≡ true → s.rt ≡ false
  pub wake_up : is_asleep s.place ≡ true → WakeUp s.futex s.waker

thread_step-Inv : (p : Place) (s : State) → s.place ≡ p → Inv s → Inv (thread_step p s)
unfolding thread_step
thread_step-Inv enter s e v = ground arith
thread_step-Inv top s e v = ground arith
thread_step-Inv pausing s e v = ground arith
thread_step-Inv paused s e v = ground arith
thread_step-Inv unpausing s e v = ground arith
thread_step-Inv splice s e v = ground arith
thread_step-Inv (synchronize cbs) s e v = ground arith
thread_step-Inv (grace cbs) s e v = ground arith
thread_step-Inv (invoke n []) s e v = ground arith
thread_step-Inv (invoke n (c ∷ cbs)) s e v = ground arith
thread_step-Inv test_stop s e v = ground arith
thread_step-Inv test_empty s e v = ground arith
thread_step-Inv wait s e v = ground arith
thread_step-Inv call s e v = ground arith
thread_step-Inv asleep s e v = v
thread_step-Inv again s e v = ground arith
thread_step-Inv clear s e v = ground arith
thread_step-Inv stopping s e v = ground arith
thread_step-Inv exited s e v = v

woken_lem :
    (p : Place) (a b : Bool) (cbs : List ℕ)
    → (has_news (woken p) a b cbs ≡ has_news p a b cbs)
      × (is_reset (woken p) ≡ is_reset p)
      × (is_behind_stop (woken p) ≡ is_behind_stop p)
      × (is_asleep (woken p) ≡ false)
woken_lem enter a b cbs = (refl, refl, refl, refl)
woken_lem top a b cbs = (refl, refl, refl, refl)
woken_lem pausing a b cbs = (refl, refl, refl, refl)
woken_lem paused a b cbs = (refl, refl, refl, refl)
woken_lem unpausing a b cbs = (refl, refl, refl, refl)
woken_lem splice a b cbs = (refl, refl, refl, refl)
woken_lem (synchronize l) a b cbs = (refl, refl, refl, refl)
woken_lem (grace l) a b cbs = (refl, refl, refl, refl)
woken_lem (invoke n l) a b cbs = (refl, refl, refl, refl)
woken_lem test_stop a b cbs = (refl, refl, refl, refl)
woken_lem test_empty a b cbs = (refl, refl, refl, refl)
woken_lem wait a b cbs = (refl, refl, refl, refl)
woken_lem call a b cbs = (refl, refl, refl, refl)
woken_lem asleep a b cbs = (refl, refl, refl, refl)
woken_lem again a b cbs = (refl, refl, refl, refl)
woken_lem clear a b cbs = (refl, refl, refl, refl)
woken_lem stopping a b cbs = (refl, refl, refl, refl)
woken_lem exited a b cbs = (refl, refl, refl, refl)

woken-Inv : (s : State) → Inv s → Inv (record s { place = woken s.place })
woken-Inv s v = ground (arith, woken_lem s.place s.pause s.stop s.cbs)

pub update_self {ℓ} : {A : Type ℓ} (f : ℕ → A) (i : ℕ) (a : A) → update f i a i ≡ a
update_self f i a = ground arith

-- One that is not the one on its way still is.
others-Alarm :
    (f i : ℕ) (w : ℕ → Pc) (pc : Pc) → is_coming (w i) ≡ false → Alarm f w → Alarm f (update w i pc)
others-Alarm f i w pc n (inl x) = inl x
others-Alarm f i w pc n (inr (j, c)) = inr (j, ground arith)

others-WakeUp :
    (f i : ℕ) (w : ℕ → Pc) (pc : Pc)
    → is_coming (w i) ≡ true ⊎ w i ≡ outside
    → WakeUp f w
    → WakeUp f (update w i pc)
others-WakeUp f i w pc n (inl x) = inl x
others-WakeUp f i w pc n (inr (j, c)) = inr (j, ground arith)

waker_step-Inv : (i : ℕ) (pc : Pc) (s : State) → s.waker i ≡ pc → Inv s → Inv (waker_step i pc s)
unfolding waker_step
waker_step-Inv i outside s e v = v
waker_step-Inv i counting s e v = record {
  word = v.word;
  not_rt = v.not_rt;
  reset = v.reset;
  news = λ r n. inr (i, ground arith);
  wake_up = λ a. others-WakeUp s.futex i s.waker _ (inl (rw e refl)) (v.wake_up a);
}
waker_step-Inv i looking s e v = record {
  word = v.word;
  not_rt = v.not_rt;
  reset = v.reset;
  news = λ r n. elim (Bool-cases (s.futex == minus_one)) [
    | inl armed ↦ inr (i, rw armed (ground arith))
    | inr moved ↦ inl (ground arith)
  ];
  wake_up = λ a. others-WakeUp s.futex i s.waker _ (inl (rw e refl)) (v.wake_up a);
}
waker_step-Inv i resetting s e v = record {
  word = inl refl;
  not_rt = v.not_rt;
  reset = λ r. refl;
  news = λ r n. inl (ground arith);
  wake_up = λ a. inr (i, update_self s.waker i calling);
}
waker_step-Inv i calling s e v =
    let w = woken-Inv s v in
    record {
      word = w.word;
      not_rt = w.not_rt;
      reset = w.reset;
      news = λ r n. others-Alarm s.futex i s.waker _ (rw e refl) (w.news r n);
      wake_up = λ a. absurd (ground (arith, woken_lem s.place false false []));
    }

begin-Inv :
    (i : ℕ) (pc : Pc) (s t : State)
    → s.waker i ≡ outside
    → t.waker ≡ update s.waker i pc
    → t.futex ≡ s.futex
    → t.place ≡ s.place
    → t.rt ≡ s.rt
    → (t.rt ≡ false → is_coming pc ≡ true)
    → Inv s
    → Inv t
begin-Inv i pc s t e w f p q c v = record {
  not_rt = λ b. q ∙ v.not_rt (rw (sym p) b);
  word = rw f v.word;
  reset = λ r. f ∙ v.reset (rw (sym p) r);
  news = λ r n. inr (i, rw w (ground (arith, c r)));
  wake_up = λ a. rw (f, w) (others-WakeUp s.futex i s.waker pc (inr e) (v.wake_up (rw (sym p) a)));
}

coming : (rt : Bool) → rt ≡ false → is_coming (wake_call_rcu_thread rt) ≡ true
coming rt e = ground arith

outside_of : (pc : Pc) → is_outside pc ≡ true → pc ≡ outside
outside_of outside e = refl
outside_of counting e = ground arith
outside_of looking e = ground arith
outside_of resetting e = ground arith
outside_of calling e = ground arith

step-Inv : (e : Event) (s : State) → Inv s → Inv (step e s)
unfolding step begin
step-Inv run_thread s v = thread_step-Inv s.place s refl v
step-Inv interrupt s v = woken-Inv s v
step-Inv (go i) s v = waker_step-Inv i (s.waker i) s refl v
step-Inv (queue i head) s v = elim (Bool-cases (is_outside (s.waker i))) [
  | inl o ↦ rw o (begin-Inv i _ s _ (outside_of _ o) refl refl refl refl (λ r. refl) v)
  | inr o ↦ rw o v
]
step-Inv (ask_stop i) s v = elim (Bool-cases (is_outside (s.waker i))) [
  | inl o ↦ rw o (begin-Inv i _ s _ (outside_of _ o) refl refl refl refl (coming s.rt) v)
  | inr o ↦ rw o v
]
step-Inv (ask_pause i) s v = elim (Bool-cases (is_outside (s.waker i))) [
  | inl o ↦ rw o (begin-Inv i _ s _ (outside_of _ o) refl refl refl refl (coming s.rt) v)
  | inr o ↦ rw o v
]
step-Inv end_pause s v = ground arith

pub run-Inv : (es : List Event) (s : State) → Inv s → Inv (run es s)
unfolding run
run-Inv [] s v = v
run-Inv (e ∷ es) s v = run-Inv es (step e s) (step-Inv e s v)

pub init-Inv : (rt : Bool) → Inv (call_rcu_data_init rt)
init-Inv rt = ground arith
