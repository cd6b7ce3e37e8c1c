-- ===== src/Defer/Encoding.antt =====
-- The words that stand for a sequence of callbacks, as the comment on `struct defer_queue` has them.
use userspace_rcu.Prelude.{
  ℕ, suc, ◌+◌, ◌%◌, ◌<◌, ◌≡◌, ◌≢◌, refl, List, [], ◌∷◌, ◌++◌, arith, length,
}
use userspace_rcu.Defer.{Callback, dq_fct_mark}

-- `Encodes last ws cs last'`: read with `last` as the current function, the words `ws` are the
-- callbacks `cs`, and leave `last'` as the current function.
pub data Encodes : ℕ → List ℕ → List Callback → ℕ → Type 0 where
  done : {last : ℕ} → Encodes last [] [] last
  -- the argument alone
  plain :
      {last p last' : ℕ} {ws : List ℕ} {cs : List Callback}
      → p % 2 ≡ 0
      → p ≢ dq_fct_mark
      → Encodes last ws cs last'
      → Encodes last (p ∷ ws) ((last, p) ∷ cs) last'
  -- a function with its lowest bit set, and the argument
  flagged :
      {last fct w p last' : ℕ} {ws : List ℕ} {cs : List Callback}
      → fct % 2 ≡ 0
      → w ≡ fct + 1
      → Encodes fct ws cs last'
      → Encodes last (w ∷ p ∷ ws) ((fct, p) ∷ cs) last'
  -- the mark, any function, and the argument
  marked :
      {last fct w p last' : ℕ} {ws : List ℕ} {cs : List Callback}
      → w ≡ dq_fct_mark
      → Encodes fct ws cs last'
      → Encodes last (w ∷ fct ∷ p ∷ ws) ((fct, p) ∷ cs) last'

pub Encodes-append :
    {a b c : ℕ} {ws vs : List ℕ} {cs ds : List Callback}
    → Encodes a ws cs b
    → Encodes b vs ds c
    → Encodes a (ws ++ vs) (cs ++ ds) c
Encodes-append done t = t
Encodes-append (plain e m s) t = plain e m (Encodes-append s t)
Encodes-append (flagged e w s) t = flagged e w (Encodes-append s t)
Encodes-append (marked w s) t = marked w (Encodes-append s t)

-- Each callback takes a word at least.
pub length-Encodes :
    {a b : ℕ} {ws : List ℕ} {cs : List Callback} → Encodes a ws cs b → length cs < suc (length ws)
length-Encodes done = omega arith
length-Encodes (plain e m s) = omega (arith, length-Encodes s)
length-Encodes (flagged e w s) = omega (arith, length-Encodes s)
length-Encodes (marked w s) = omega (arith, length-Encodes s)

-- No words are no callbacks, and some words are some.
pub Encodes-nil :
    {a b : ℕ} {ws : List ℕ} {cs : List Callback} → Encodes a ws cs b → ws ≡ [] → (cs ≡ []) × (a ≡ b)
Encodes-nil done e = (refl, refl)
Encodes-nil (plain b m s) e = cc
Encodes-nil (flagged b w s) e = cc
Encodes-nil (marked w s) e = cc

pub Encodes-cons :
    {a b : ℕ} {ws : List ℕ} {cs : List Callback} → Encodes a ws cs b → cs ≡ [] → ws ≡ []
Encodes-cons done e = refl
Encodes-cons (plain b m s) e = cc
Encodes-cons (flagged b w s) e = cc
Encodes-cons (marked w s) e = cc
