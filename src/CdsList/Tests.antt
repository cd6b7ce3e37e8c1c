-- ===== src/CdsList/Tests.antt =====
-- Runs of the list functions on small lists.
use userspace_rcu.Prelude.{ℕ, ◌≡◌, refl, [], ◌∷◌, arith, update, ◌⊎◌, true, false, has}
use userspace_rcu.CdsList.{
  Links, cds_list_add, cds_list_add_tail, cds_list_del, cds_list_replace_init, cds_list_for_each,
  cds_init_list_head,
}
use userspace_rcu.CdsList.Ring.{Ring}
use userspace_rcu.CdsList.Rcu.{run, cds_list_replace_rcu, cds_list_del_rcu}
use userspace_rcu.CdsList.Readers.{
  Throughout, walk, cds_list_del_rcu-readers, cds_list_replace_rcu-readers,
}

-- the head 0 with the nodes 3, 5 and 7, and the head 10 with the node 11
abbrev two_lists : Links
two_lists = record {
  next = update (update (update (update (update (update (λ x. x) 0 3) 3 5) 5 7) 7 0) 10 11) 11 10;
  prev = update (update (update (update (update (update (λ x. x) 3 0) 5 3) 7 5) 0 7) 11 10) 10 11;
}

first_list : Ring two_lists 0 (3 ∷ 5 ∷ 7 ∷ [])
first_list = (((refl, refl), ((refl, refl), ((refl, refl), (refl, refl)))), refl)

second_list : Ring two_lists 10 (11 ∷ [])
second_list = (((refl, refl), (refl, refl)), refl)

-- the list that the functions build
built :
    cds_list_for_each 9 3 0
      (cds_list_add 3 0 (cds_list_add_tail 5 0 (cds_init_list_head 0 two_lists)))
    ≡ 3 ∷ 5 ∷ []
unfolding cds_list_for_each cds_list_add cds_list_add_tail cds_init_list_head
built = refl

-- `cds_list_replace_init` with an empty list leaves the new head at the old one.
replaced_empty : (cds_list_replace_init 0 1 (cds_init_list_head 0 two_lists)).next 1 ≡ 0
unfolding cds_list_replace_init cds_list_del cds_list_add_tail cds_init_list_head
replaced_empty = refl

-- the nodes of the second list are not on the first
apart : (c : ℕ) → has c (10 ∷ 11 ∷ []) ≡ true → has c (0 ∷ 3 ∷ 5 ∷ 7 ∷ []) ≡ false
apart c i = ground arith

cds_list_del_rcu-readers_example :
    Throughout
      (λ g.
        ((walk 5 0 g ≡ 3 ∷ 5 ∷ 7 ∷ []) ⊎ (walk 5 0 g ≡ 3 ∷ 7 ∷ []))
        × (cds_list_for_each 5 (g.next 5) 0 g ≡ 7 ∷ []))
      (cds_list_del_rcu 5)
      two_lists
    × Ring (run (cds_list_del_rcu 5) two_lists) 0 (3 ∷ 7 ∷ [])
cds_list_del_rcu-readers_example =
    cds_list_del_rcu-readers two_lists 0 (3 ∷ []) 5 (7 ∷ []) 5 first_list (ground arith)

cds_list_replace_rcu-readers_example :
    Throughout
      (λ g.
        ((walk 5 0 g ≡ 3 ∷ 5 ∷ 7 ∷ []) ⊎ (walk 5 0 g ≡ 3 ∷ 4 ∷ 7 ∷ []))
        × (cds_list_for_each 5 (g.next 5) 0 g ≡ 7 ∷ []))
      (cds_list_replace_rcu 5 4)
      two_lists
    × Ring (run (cds_list_replace_rcu 5 4) two_lists) 0 (3 ∷ 4 ∷ 7 ∷ [])
cds_list_replace_rcu-readers_example =
    cds_list_replace_rcu-readers two_lists 0 (3 ∷ []) 5 (7 ∷ []) 4 5 first_list refl (ground arith)
