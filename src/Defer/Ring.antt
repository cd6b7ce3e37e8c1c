-- ===== src/Defer/Ring.antt =====
-- The ring of words: what stands between `tail` and `head`, and what the loops make of it.
use mathlib.Core.Path.{subst}
use userspace_rcu.Prelude.{
  ℕ, zero, suc, ◌+◌, ◌%◌, ◌≤◌, ◌<◌, ◌≡◌, ◌≢◌, refl, List, [], ◌∷◌, ◌++◌, arith, length,
  length-append, word, add_word, sub_word, update, some, map,
}
use userspace_rcu.Defer.{
  Callback, Queue, call, dq_fct_mark, slot, defer_queue_size, take_item, drain,
  rcu_defer_barrier_queue,
}
use userspace_rcu.Defer.Encoding.{Encodes, done, plain, flagged, marked, length-Encodes}

-- from index `i` on, the ring holds the words
abbrev pub Segment : (ℕ → ℕ) → ℕ → List ℕ → Type 0
Segment q i [] = Unit {0}
Segment q i (w ∷ ws) = (q (slot i) ≡ w) × Segment q (add_word i 1) ws

-- n + 1 places on is n places on from the next one
add_word-suc : (i n : ℕ) → add_word (add_word i 1) n ≡ add_word i (suc n)
add_word-suc i n = omega arith

-- A write `n` places on spares the words before it.
Segment-update :
    (q : ℕ → ℕ) (i n v : ℕ) (ws : List ℕ)
    → length ws ≤ n
    → n < defer_queue_size
    → Segment q i ws
    → Segment (update q (slot (add_word i n)) v) i ws
Segment-update q i n v [] h k s = tt
Segment-update q i zero v (w ∷ ws) h k s = absurd (omega arith)
Segment-update q i (suc n) v (w ∷ ws) h k s = (
  ground arith,
  subst (λ j. Segment (update q (slot j) v) (add_word i 1) ws) (add_word-suc i n)
      (Segment-update q (add_word i 1) n v ws (omega arith) (omega arith) s.1),
)

-- A write behind the words appends to them.
pub Segment-append :
    (q : ℕ → ℕ) (i v : ℕ) (ws : List ℕ)
    → i < word
    → length ws < defer_queue_size
    → Segment q i ws
    → Segment (update q (slot (add_word i (length ws))) v) i (ws ++ v ∷ [])
Segment-append q i v [] r k s = (ground arith, tt)
Segment-append q i v (w ∷ ws) r k s = (
  ground arith,
  subst (λ j. Segment (update q (slot j) v) (add_word i 1) (ws ++ v ∷ []))
      (add_word-suc i (length ws))
      (Segment-append q (add_word i 1) v ws (omega arith) (omega arith) s.1),
)

Segment-take : (q : ℕ → ℕ) (i : ℕ) (ws vs : List ℕ) → Segment q i (ws ++ vs) → Segment q i ws
Segment-take q i [] vs s = tt
Segment-take q i (w ∷ ws) vs s = (s.0, Segment-take q (add_word i 1) ws vs s.1)

Segment-drop :
    (q : ℕ → ℕ) (i : ℕ) (ws vs : List ℕ)
    → i < word
    → Segment q i (ws ++ vs)
    → Segment q (add_word i (length ws)) vs
Segment-drop q i [] vs r s = subst (λ j. Segment q j vs) (omega arith) s
Segment-drop q i (w ∷ ws) vs r s =
    subst (λ j. Segment q j vs) (add_word-suc i (length ws))
      (Segment-drop q (add_word i 1) ws vs (omega arith) s.1)

module _ (q : ℕ → ℕ) (i out : ℕ) where
  take-plain :
      (p : ℕ)
      → q (slot i) ≡ p
      → p % 2 ≡ 0
      → p ≢ dq_fct_mark
      → take_item q i out ≡ (add_word i 1, out, p)
  unfolding take_item
  take-plain p e b m = ground arith

  take-flagged :
      (fct w p : ℕ)
      → q (slot i) ≡ w
      → q (slot (add_word i 1)) ≡ p
      → fct % 2 ≡ 0
      → w ≡ fct + 1
      → take_item q i out ≡ (add_word (add_word i 1) 1, fct, p)
  unfolding take_item
  take-flagged fct w p e e' b m = ground arith

  take-marked :
      (fct w p : ℕ)
      → q (slot i) ≡ w
      → q (slot (add_word i 1)) ≡ fct
      → q (slot (add_word (add_word i 1) 1)) ≡ p
      → w ≡ dq_fct_mark
      → take_item q i out ≡ (add_word (add_word (add_word i 1) 1) 1, fct, p)
  unfolding take_item
  take-marked fct w p e e' e'' m = ground arith

-- one round of the loop
drain-step :
    (fuel : ℕ) (q : ℕ → ℕ) (i head out i' fct p : ℕ) {cs : List Callback} {last : ℕ}
    → i ≢ head
    → take_item q i out ≡ (i', fct, p)
    → drain fuel q i' head fct ≡ some (cs, last)
    → drain (suc fuel) q i head out ≡ some ((fct, p) ∷ cs, last)
unfolding drain
drain-step fuel q i head out i' fct p ne t rest = rw (t, rest) (ground arith)

-- The loop makes exactly the calls that the words between the two indices encode, in order.
pub drain-calls :
    (fuel i head : ℕ) (q : ℕ → ℕ) {out last : ℕ} {ws : List ℕ} {cs : List Callback}
    → i < word
    → head ≡ add_word i (length ws)
    → length ws ≤ defer_queue_size
    → Segment q i ws
    → Encodes out ws cs last
    → length cs < fuel
    → drain fuel q i head out ≡ some (cs, last)
unfolding drain
drain-calls zero i head q r h k s e f = absurd (omega arith)
drain-calls (suc fuel) i head q r h k s done f = ground arith
drain-calls (suc fuel) i head q {out} r h k s (plain {p} b m e) f =
    drain-step fuel q i head out (add_word i 1) out p (omega arith) (take-plain q i out p s.0 b m) (
      drain-calls fuel (add_word i 1) head q (omega arith) (omega arith) (omega arith) s.1 e
        (omega arith))
drain-calls (suc fuel) i head q {out} r h k s (flagged {fct} {w} {p} b m e) f =
    drain-step fuel q i head out (add_word (add_word i 1) 1) fct p (omega arith)
      (take-flagged q i out fct w p s.0 s.1.0 b m)
      (drain-calls fuel (add_word (add_word i 1) 1) head q (omega arith) (omega arith) (omega arith)
        s.1.1 e (omega arith))
drain-calls (suc fuel) i head q {out} r h k s (marked {fct} {w} {p} m e) f =
    drain-step fuel q i head out (add_word (add_word (add_word i 1) 1) 1) fct p (omega arith)
      (take-marked q i out fct w p s.0 s.1.0 s.1.1.0 m)
      (drain-calls fuel (add_word (add_word (add_word i 1) 1) 1) head q (omega arith) (omega arith)
        (omega arith) s.1.1.1 e (omega arith))

-- The queue holds the callbacks `cs`, encoded by the words `ws`.
pub record Holds (d : Queue) (ws : List ℕ) (cs : List Callback) : Type 0 where
  pub in_range : d.tail < word
  pub segment : Segment d.q d.tail ws
  pub head_at : d.head ≡ add_word d.tail (length ws)
  pub fits : length ws ≤ defer_queue_size
  pub encodes : Encodes d.last_fct_out ws cs d.last_fct_in

abbrev pub used : Queue → ℕ
used d = sub_word d.head d.tail

pub used-Holds : {d : Queue} {ws : List ℕ} {cs : List Callback} → Holds d ws cs → used d ≡ length ws
used-Holds h = omega arith

-- `rcu_defer_barrier_queue` up to an index in the middle: it calls what the words before it encode,
-- and leaves the rest.
pub rcu_defer_barrier_queue-Holds :
    (d : Queue) (ws vs : List ℕ) {cs ds : List Callback} {last : ℕ}
    → d.tail < word
    → Segment d.q d.tail (ws ++ vs)
    → d.head ≡ add_word d.tail (length (ws ++ vs))
    → length (ws ++ vs) ≤ defer_queue_size
    → Encodes d.last_fct_out ws cs last
    → Encodes last vs ds d.last_fct_in
    → (d' : Queue) × (rcu_defer_barrier_queue d (add_word d.tail (length ws))
        ≡ some (map call cs, d'))
      × Holds d' vs ds
      × (d'.head ≡ d.head)
unfolding rcu_defer_barrier_queue
rcu_defer_barrier_queue-Holds d ws vs {last} r s h k e f = (
  record d { tail = add_word d.tail (length ws); last_fct_out = last },
  rw (
      drain-calls (suc (sub_word (add_word d.tail (length ws)) d.tail)) d.tail _ d.q r refl
        (omega (arith, length-append {0} ws vs)) (Segment-take d.q d.tail ws vs s) e
        (omega (arith, length-append {0} ws vs, length-Encodes e))),
  record {
    in_range = omega arith;
    segment = Segment-drop d.q d.tail ws vs r s;
    head_at = omega (arith, length-append {0} ws vs);
    fits = omega (arith, length-append {0} ws vs);
    encodes = f;
  },
  refl,
)
