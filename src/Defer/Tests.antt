-- ===== src/Defer/Tests.antt =====
-- Deferred callbacks at concrete inputs.
use userspace_rcu.Prelude.{ℕ, ◌≡◌, refl, List, [], ◌∷◌, map, some, arith, word, ◌-◌, zero, suc, ◌≤◌}
use userspace_rcu.Prelude.{replicate, length-replicate, add_word, sub_word}
use mathlib.Core.Option
use userspace_rcu.Defer.{
  Callback, Queue, Act, call, synchronize_rcu, dq_fct_mark, take_item, drain,
  rcu_defer_barrier_queue, rcu_defer_barrier_thread, put_item, encode, defer_rcu, defer_all,
  calls_of,
}
use userspace_rcu.Defer.Encoding.{Encodes, done, plain}
use userspace_rcu.Defer.Ring.{Segment, Holds}
use userspace_rcu.Defer.History.{defer_all-in_order}

-- an empty queue whose indices are about to wrap
abbrev late : Queue
late = record { head = word - 1; last_fct_in = 8; tail = word - 1; last_fct_out = 8; q = λ _. 0 }

late-Holds : Holds late [] []
late-Holds = record {
  in_range = omega arith;
  segment = tt;
  head_at = refl;
  fits = omega arith;
  encodes = done;
}

-- a plain argument, a function that has to be named, the mark as an argument, an odd function
abbrev requests : List Callback
requests = (8, 16) ∷ (24, 32) ∷ (24, dq_fct_mark) ∷ (7, 40) ∷ (7, 9) ∷ []

-- The encodings of `_defer_rcu` and their calls, across the wrap of the indices.
requests_called :
    Option.map {B = List Act × ℕ}
      (λ (acts, d). (acts, sub_word d.head d.tail))
      (defer_all requests late)
    ≡ some (synchronize_rcu ∷ map call requests, 0)
unfolding defer_all defer_rcu encode put_item rcu_defer_barrier_thread rcu_defer_barrier_queue drain
    take_item
requests_called = refl

defer_all-in_order_example :
    (acts : List Act) × (d' : Queue) × (defer_all requests late ≡ some (acts, d'))
    × (calls_of acts ≡ requests)
    × Holds d' [] []
defer_all-in_order_example = defer_all-in_order requests late [] [] late-Holds

Segment-zeros : (n i : ℕ) → Segment (λ _. 0) i (replicate n 0)
Segment-zeros zero i = tt
Segment-zeros (suc n) i = (refl, Segment-zeros n (add_word i 1))

Encodes-zeros : (n : ℕ) → Encodes 8 (replicate n 0) (replicate n (8, 0)) 8
Encodes-zeros zero = done
Encodes-zeros (suc n) = plain (omega arith) (omega arith) (Encodes-zeros n)

-- `n` words of one function, whose indices are about to wrap
abbrev filled : ℕ → Queue
filled n = record late { head = add_word (word - 1) n }

filled-Holds : (n : ℕ) → n ≤ 4096 → Holds (filled n) (replicate n 0) (replicate n (8, 0))
filled-Holds n k = record {
  in_range = omega arith;
  segment = Segment-zeros n (word - 1);
  head_at = omega (arith, length-replicate {0} {A = ℕ} n 0);
  fits = omega (arith, length-replicate {0} {A = ℕ} n 0);
  encodes = Encodes-zeros n;
}

-- two of three words
