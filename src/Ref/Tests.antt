-- ===== src/Ref/Tests.antt =====
-- Runs of the reference count.
use userspace_rcu.Prelude.{◌≡◌, refl, false, List, [], ◌∷◌, arith}
use userspace_rcu.Ref.{
  get, get_unless_zero, got, urcu_ref_init, load, exchange, urcu_ref_put, Event, begin, go, put,
  step,
}
use userspace_rcu.Ref.Count.{Counts, run, run-Counts}

init-Counts : Counts urcu_ref_init 1
init-Counts = (refl, ground arith, refl, refl, (λ i. refl))

-- Two threads get a reference, the first of them at the second try; all are put, and another comes
-- too late.
abbrev shared : List Event
shared =
    begin 1 get
    ∷ begin 2 get_unless_zero
    ∷ go 2
    ∷ go 1
    ∷ go 1
    ∷ put
    ∷ put
    ∷ put
    ∷ begin 3 get_unless_zero
    ∷ []

too_late : (run shared urcu_ref_init).getter 3 ≡ got false
unfolding run step load exchange urcu_ref_put
too_late = refl

run-Counts_example : Counts (run shared urcu_ref_init) 0
unfolding run step load exchange urcu_ref_put
run-Counts_example = run-Counts shared urcu_ref_init 1 init-Counts (
  refl,
  (
    refl,
    (
      refl,
      (ground arith, (ground arith, (ground arith, (ground arith, (ground arith, (refl, refl)))))),
    ),
  ),
)
