-- ===== src/CdsList/Rcu.antt =====
-- The list that readers walk while one thread changes it: include/urcu/rculist.h. A function is the
-- list of its stores, so that a reader can run between any two of them.
use userspace_rcu.Prelude.{ℕ, List, [], ◌∷◌}
use userspace_rcu.CdsList.{Links, set_next, set_prev}

abbrev pub Store : Type 0
Store = Links → Links

-- all stores of a list, in order
abbrev pub run : List Store → Links → Links
run [] h = h
run (s ∷ ss) h = run ss (s h)

unfoldable pub cds_list_add_rcu : (newp head : ℕ) → List Store
cds_list_add_rcu newp head =
    (λ h. set_next newp (h.next head) h)
    ∷ (λ h. set_prev newp head h)
    ∷ (λ h. set_prev (h.next head) newp h)
    ∷ (λ h. set_next head newp h)
    ∷ []

unfoldable pub cds_list_add_tail_rcu : (newp head : ℕ) → List Store
cds_list_add_tail_rcu newp head =
    (λ h. set_next newp head h)
    ∷ (λ h. set_prev newp (h.prev head) h)
    ∷ (λ h. set_next (h.prev head) newp h)
    ∷ (λ h. set_prev head newp h)
    ∷ []

unfoldable pub cds_list_replace_rcu : (old new : ℕ) → List Store
cds_list_replace_rcu old new =
    (λ h. set_next new (h.next old) h)
    ∷ (λ h. set_prev new (h.prev old) h)
    ∷ (λ h. set_next (h.prev new) new h)
    ∷ (λ h. set_prev (h.next new) new h)
    ∷ []

unfoldable pub cds_list_del_rcu : (elem : ℕ) → List Store
cds_list_del_rcu elem =
    (λ h. set_prev (h.next elem) (h.prev elem) h)
    ∷ (λ h. set_next (h.prev elem) (h.next elem) h)
    ∷ []
