-- ===== src/Prelude/Nodes.antt =====
-- Sets of nodes as lists of numbers, and families updated at one index.
use Prim.Native.Nat.{ℕ}
use mathlib.Core.Path.{◌≡◌, refl}
use mathlib.Core.Logic.{◌≢◌}
use mathlib.Core.Bool.{Bool, true, false, ◌||◌}
use mathlib.Core.List.{List, [], ◌∷◌, ◌++◌}
use native.Mathlib.Omega.{arith}
use userspace_rcu.Prelude.Tests.{◌==◌, if◌then◌else◌}

abbrev pub has : ℕ → List ℕ → Bool
has i [] = false
has i (j ∷ js) = (i == j) || has i js

abbrev pub is_empty : List ℕ → Bool
is_empty [] = true
is_empty (_ ∷ _) = false

pub eq_nil_of_is_empty : (l : List ℕ) → is_empty l ≡ true → l ≡ []
eq_nil_of_is_empty [] h = refl
eq_nil_of_is_empty (x ∷ xs) h = cc

-- without the node; a node stands on a list at most once, so this is all its occurrences
unfoldable pub remove : ℕ → List ℕ → List ℕ
remove i [] = []
remove i (j ∷ js) = if i == j then remove i js else j ∷ remove i js

abbrev pub update {ℓ} : {A : Type ℓ} → (ℕ → A) → ℕ → A → ℕ → A
update f i a j = if i == j then a else f j

pub has-remove_self : (i : ℕ) (l : List ℕ) → has i (remove i l) ≡ false
unfolding remove
has-remove_self i [] = refl
has-remove_self i (j ∷ js) = ground (arith, has-remove_self i js)

pub has-remove_ne : (i j : ℕ) (l : List ℕ) → i ≢ j → has i (remove j l) ≡ has i l
unfolding remove
has-remove_ne i j [] ne = refl
has-remove_ne i j (k ∷ ks) ne = ground (arith, has-remove_ne i j ks ne)

pub has-append : (i : ℕ) (l m : List ℕ) → has i (l ++ m) ≡ (has i l || has i m)
has-append i [] m = refl
has-append i (j ∷ js) m = ground (arith, has-append i js m)
