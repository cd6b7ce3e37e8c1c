-- ===== src/CdsList.antt =====
-- The doubly linked list of include/urcu/list.h. Nodes are numbers, and each function is its stores
-- in the order of the source.
mod Ring
mod Update
mod Move
mod Walk
mod Rcu
mod RcuUpdate
mod Forward
mod Readers
mod Tests
use userspace_rcu.Prelude.{ℕ, zero, suc, Bool, List, [], ◌∷◌, ◌==◌, if◌then◌else◌, update, not}

-- `struct cds_list_head` at every address
pub record Links : Type 0 where
  pub next : ℕ → ℕ
  pub prev : ℕ → ℕ

abbrev pub set_next : (p v : ℕ) → Links → Links
set_next p v h = record h { next = update h.next p v }

abbrev pub set_prev : (p v : ℕ) → Links → Links
set_prev p v h = record h { prev = update h.prev p v }

unfoldable pub cds_init_list_head : (ptr : ℕ) → Links → Links
cds_init_list_head ptr h = set_next ptr ptr (set_prev ptr ptr h)

unfoldable pub cds_list_add : (newp head : ℕ) → Links → Links
cds_list_add newp head h =
    let a = set_prev (h.next head) newp h in
    let b = set_next newp (a.next head) a in let c = set_prev newp head b in set_next head newp c

unfoldable pub cds_list_add_tail : (newp head : ℕ) → Links → Links
cds_list_add_tail newp head h =
    let a = set_next (h.prev head) newp h in
    let b = set_next newp head a in let c = set_prev newp (b.prev head) b in set_prev head newp c

-- `__cds_list_del`
unfoldable pub unlink : (prev next : ℕ) → Links → Links
unlink prev next h = set_next prev next (set_prev next prev h)

unfoldable pub cds_list_del : (elem : ℕ) → Links → Links
cds_list_del elem h = unlink (h.prev elem) (h.next elem) h

unfoldable pub cds_list_del_init : (elem : ℕ) → Links → Links
cds_list_del_init elem h = cds_init_list_head elem (cds_list_del elem h)

unfoldable pub cds_list_move : (elem head : ℕ) → Links → Links
cds_list_move elem head h = cds_list_add elem head (unlink (h.prev elem) (h.next elem) h)

unfoldable pub cds_list_replace : (old new : ℕ) → Links → Links
cds_list_replace old new h =
    let a = set_next new (h.next old) h in
    let b = set_prev new (a.prev old) a in
    let c = set_next (b.prev new) new b in set_prev (c.next new) new c

unfoldable pub cds_list_splice : (add head : ℕ) → Links → Links
cds_list_splice add head h =
    if add == h.next add
    then h
    else (let a = set_prev (h.next add) head h in
        let b = set_next (a.prev add) (a.next head) a in
        let c = set_prev (b.next head) (b.prev add) b in set_next head (c.next add) c)

unfoldable pub cds_list_empty : (head : ℕ) → Links → Bool
cds_list_empty head h = head == h.next head

unfoldable pub cds_list_replace_init : (old new : ℕ) → Links → Links
cds_list_replace_init old new h =
    let head = h.next old in
    cds_init_list_head old (cds_list_add_tail new head (cds_list_del old h))

-- `cds_list_for_each`: the positions that the loop visits from `pos` on, in at most `fuel` rounds
unfoldable pub cds_list_for_each : (fuel pos head : ℕ) → Links → List ℕ
cds_list_for_each zero pos head h = []
cds_list_for_each (suc fuel) pos head h =
    let rest = cds_list_for_each fuel (h.next pos) head h in if pos == head then [] else pos ∷ rest

-- `cds_list_for_each_prev`
unfoldable pub cds_list_for_each_prev : (fuel pos head : ℕ) → Links → List ℕ
cds_list_for_each_prev zero pos head h = []
cds_list_for_each_prev (suc fuel) pos head h =
    let rest = cds_list_for_each_prev fuel (h.prev pos) head h in
    if pos == head then [] else pos ∷ rest
