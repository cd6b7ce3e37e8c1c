-- ===== src/Defer.antt =====
-- Deferred callbacks, src/urcu-defer-impl.h: one thread's queue of encoded (function, argument)
-- pairs, in a ring of DEFER_QUEUE_SIZE words.
pub mod Encoding
pub mod Ring
pub mod Order
pub mod History
mod Tests
use mathlib.Core.Option
use userspace_rcu.Prelude.{
  ℕ, zero, suc, ◌+◌, ◌-◌, ◌*◌, ◌/◌, ◌%◌, ◌^◌, Bool, true, false, ◌&&◌, ◌||◌, not, Option, none,
  some, List, [], ◌∷◌, ◌++◌, ◌==◌, ltb, leb, if◌then◌else◌, update, word, add_word, sub_word, map,
}

abbrev pub defer_queue_size : ℕ
defer_queue_size = 2 ^ 12

-- `i & DEFER_QUEUE_MASK`
abbrev pub slot : ℕ → ℕ
slot i = i % defer_queue_size

-- DQ_IS_FCT_BIT, DQ_SET_FCT_BIT and DQ_CLEAR_FCT_BIT on the lowest bit
abbrev pub is_fct_bit : ℕ → Bool
is_fct_bit x = x % 2 == 1

abbrev pub set_fct_bit : ℕ → ℕ
set_fct_bit x = x / 2 * 2 + 1

abbrev pub clear_fct_bit : ℕ → ℕ
clear_fct_bit x = x / 2 * 2

-- DQ_FCT_MARK, which is ~1
abbrev pub dq_fct_mark : ℕ
dq_fct_mark = word - 2

-- a function and its argument, both addresses
abbrev pub Callback : Type 0
Callback = ℕ × ℕ

-- `struct defer_queue`; `q` has the words by their index in the ring
pub record Queue : Type 0 where
  pub head : ℕ
  pub last_fct_in : ℕ
  pub tail : ℕ
  pub last_fct_out : ℕ
  pub q : ℕ → ℕ

-- a thread's queue after `rcu_defer_register_thread`, with what `malloc` left in the ring
abbrev pub fresh : (ℕ → ℕ) → Queue
fresh q = record { head = 0; last_fct_in = 0; tail = 0; last_fct_out = 0; q = q }

-- What the reclamation does that others can see.
pub data Act : Type 0 where
  synchronize_rcu : Act
  call : Callback → Act

-- The body of the loop of `rcu_defer_barrier_queue`: the index and `last_fct_out` behind it, and the
-- argument. `i++` wraps.
pub take_item : (ℕ → ℕ) → (i last_fct_out : ℕ) → ℕ × ℕ × ℕ
take_item q i out =
    let p : ℕ = q (slot i) in
    let i₁ : ℕ = add_word i 1 in
    let i₂ : ℕ = add_word i₁ 1 in
    if is_fct_bit p
    then (i₂, clear_fct_bit p, q (slot i₁))
    else (if p == dq_fct_mark then (add_word i₂ 1, q (slot i₁), q (slot i₂)) else (i₁, out, p))

-- The loop of `rcu_defer_barrier_queue`: the calls, and `last_fct_out` at the end; `none` if the
-- fuel runs out.
pub drain : ℕ → (ℕ → ℕ) → (i head last_fct_out : ℕ) → Option (List Callback × ℕ)
drain zero q i head out = none
drain (suc fuel) q i head out =
    let (i', out', p) = take_item q i out in
    let rest = drain fuel q i' head out' in
    if i == head
    then some ([], out)
    else Option.map (λ (calls, last). ((out', p) ∷ calls, last)) rest

-- A round takes a word at least, so the fuel is the words between `tail` and `head`, and one more.
pub rcu_defer_barrier_queue : Queue → (head : ℕ) → Option (List Act × Queue)
rcu_defer_barrier_queue d head =
    Option.map (λ (calls, out). (map call calls, record d { tail = head; last_fct_out = out }))
      (drain (suc (sub_word head d.tail)) d.q d.tail head d.last_fct_out)

-- `_rcu_defer_barrier_thread`; `rcu_defer_barrier_thread` is the same under its mutex.
pub rcu_defer_barrier_thread : Queue → Option (List Act × Queue)
rcu_defer_barrier_thread d =
    if sub_word d.head d.tail == 0
    then some ([], d)
    else Option.map (λ (acts, d'). (synchronize_rcu ∷ acts, d')) (rcu_defer_barrier_queue d d.head)

-- `uatomic_store(&q[head++ & DEFER_QUEUE_MASK], v)`
abbrev pub put : ℕ → (ℕ → ℕ) × ℕ → (ℕ → ℕ) × ℕ
put v (q, head) = (update q (slot head) v, add_word head 1)

-- whether `_defer_rcu` has to name the function, and whether that takes the mark
abbrev pub changed : (last_fct_in fct p : ℕ) → Bool
changed last fct p = not (last == fct) || is_fct_bit p || (p == dq_fct_mark)

abbrev pub awkward : ℕ → Bool
awkward fct = is_fct_bit fct || (fct == dq_fct_mark)

-- the stores of `_defer_rcu` into the ring
pub put_item : (last_fct_in fct p : ℕ) → (ℕ → ℕ) × ℕ → (ℕ → ℕ) × ℕ
put_item last fct p s = put p (
    if changed last fct p
    then (if awkward fct then put fct (put dq_fct_mark s) else put (set_fct_bit fct) s)
    else s)

-- The encoding half of `_defer_rcu`, up to the store of `head`.
pub encode : (fct p : ℕ) → Queue → Queue
encode fct p d =
    let (q, head) = put_item d.last_fct_in fct p (d.q, d.head) in
    record d {
      q = q;
      head = head;
      last_fct_in = if changed d.last_fct_in fct p then fct else d.last_fct_in;
    }

-- `_defer_rcu`, up to the wake-up of the defer thread; `none` is a failed assertion. What the thread
-- reclaims itself, because its queue is nearly full, is the first component.
pub defer_rcu : Callback → Queue → Option (List Act × Queue)
defer_rcu (fct, p) d =
    let used : ℕ = sub_word d.head d.tail in
    if leb (defer_queue_size - 2) used
    then (if leb used defer_queue_size
        then elim (rcu_defer_barrier_thread d) [
          | none ↦ none
          | some (acts, d') ↦
              if sub_word d.head d'.tail == 0 then some (acts, encode fct p d') else none
        ]
        else none)
    else some ([], encode fct p d)

-- one operation after another, and what both do
abbrev pub followed_by :
    Option (List Act × Queue) → (Queue → Option (List Act × Queue)) → Option (List Act × Queue)
followed_by none next = none
followed_by (some (acts, d)) next = Option.map (λ (more, last). (acts ++ more, last)) (next d)

-- a thread that queues callbacks one after the other and then waits for them
pub defer_all : List Callback → Queue → Option (List Act × Queue)
defer_all [] d = rcu_defer_barrier_thread d
defer_all (c ∷ cs) d = followed_by (defer_rcu c d) (λ d'. defer_all cs d')

-- the calls among what happens
abbrev pub calls_of : List Act → List Callback
calls_of [] = []
calls_of (synchronize_rcu ∷ acts) = calls_of acts
calls_of (call c ∷ acts) = c ∷ calls_of acts
