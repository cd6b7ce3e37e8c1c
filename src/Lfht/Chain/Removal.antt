-- ===== src/Lfht/Chain/Removal.antt =====
-- Removal of nodes from the list of src/rculfhash.c: who owns a removed node, and when no new reader
-- can come to it.
use userspace_rcu.Prelude.{ℕ, ◌≡◌, true, List, [], ◌∷◌, has, if◌then◌else◌}
use userspace_rcu.Lfht.Links.{Link, same}
use userspace_rcu.Lfht.Place.{Keys, Place, del_own, replace_swap, State}
use userspace_rcu.Lfht.Chain.{Event, call, access, step}

-- The nodes whose removal a thread wins with an access: `_cds_lfht_del` or `_cds_lfht_replace` will
-- return 0, or has.
abbrev won_by : Place → State → List ℕ → List ℕ
won_by (del_own node next) s ws = if (s.next node).owner then ws else node ∷ ws
won_by (replace_swap c b old old_next node) s ws =
    if same (s.next old) old_next then old ∷ ws else ws
won_by _ s ws = ws

abbrev pub won : Event → State → List ℕ → List ℕ
won (call i c) s ws = ws
won (access i) s ws = won_by (s.at i) s ws

abbrev pub all_won : Keys → List Event → State → List ℕ → List ℕ
all_won k [] s ws = ws
all_won k (e ∷ es) s ws = all_won k es (step k e s) (won e s ws)

-- the words of the nodes say that they were won
pub record AreOwned (n : ℕ → Link) (xs ws : List ℕ) : Type 0 where
  pub known : (c : ℕ) → has c ws ≡ true → has c xs ≡ true
  pub marked : (c : ℕ) → has c ws ≡ true → (n c).owner ≡ true
