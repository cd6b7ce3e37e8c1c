-- ===== src/Lfht/Chain/Invariant.antt =====
-- What holds of the list of the hash table of src/rculfhash.c between any two accesses.
use userspace_rcu.Prelude.{
  ℕ, ◌+◌, ◌*◌, ◌≡◌, ◌≢◌, ◌≤◌, true, false, List, ◌&&◌, ◌==◌, leb, has, distinct, if◌then◌else◌,
}
use userspace_rcu.Lfht.Links.{Link, end}
use userspace_rcu.Lfht.Place.{
  Keys, Mode, Then, own, return_replaced, Place, returned, add_first, add_next, add_duplicate,
  add_insert, add_gc, gc_first, gc_next, gc_swap, del_load, del_flag, del_own_load, del_own,
  replace_swap, lookup_first, lookup_next, State, is_table,
}
use userspace_rcu.Lfht.Chain.Reach.{Reaches}
use userspace_rcu.Lfht.Chain.Chained.{Chained}

-- The order of the list: by reversed hash, and of two nodes with the same the bucket first.
abbrev pub order : Keys → ℕ → ℕ
order k c = 2 * k.reverse_hash c + (if k.in_table c then 0 else 1)

-- Of the words `next`: `xs` are the nodes that were ever linked, and `ys` those that the links from
-- the first bucket lead through.
pub record Linked (k : Keys) (first : ℕ) (n : ℕ → Link) (xs ys : List ℕ) : Type 0 where
  pub chain : Chained n first ys
  pub once : distinct ys ≡ true
  pub starts : k.in_table first ≡ true
  pub begins : has first ys ≡ true
  pub real : has end xs ≡ false
  pub within : (c : ℕ) → has c ys ≡ true → has c xs ≡ true
  pub targets : (c : ℕ) → (n c).to ≢ end → has (n c).to xs ≡ true
  pub sorted : (c : ℕ) → has c xs ≡ true → (n c).to ≢ end → order k c ≤ order k (n c).to
  pub kept : (c : ℕ) → has c xs ≡ true → (n c).removed ≡ false → has c ys ≡ true
  pub flagged : (c : ℕ) → has c xs ≡ true → (n c).bucket ≡ k.in_table c
  pub tables : (c : ℕ) → has c xs ≡ true → k.in_table c ≡ true → (n c).removed ≡ false
  pub owned : (c : ℕ) → has c xs ≡ true → (n c).owner ≡ true → (n c).removed ≡ true

-- the node of an operation's bucket
abbrev pub IsBucket : Keys → (b node : ℕ) (xs : List ℕ) → Type 0
IsBucket k b node xs =
    (has b xs ≡ true) × (k.in_table b ≡ true) × (order k b ≤ order k node) × (b ≢ node)

abbrev pub Adds : Keys → Mode → (b node : ℕ) (xs : List ℕ) → Type 0
Adds k m b node xs = IsBucket k b node xs × (is_table m ≡ k.in_table node) × (node ≢ end)

-- `iter` is a word of `prev` as it was
abbrev pub Prev : (prev : ℕ) (iter : Link) (xs : List ℕ) → Type 0
Prev prev iter xs = (has prev xs ≡ true) × (iter.removed ≡ false)

-- a node may be put in between `prev` and the node after it
abbrev pub Fits : Keys → (node prev : ℕ) (iter : Link) (xs : List ℕ) → Type 0
Fits k node prev iter xs =
    (order k prev ≤ order k node)
    × ((if iter.to == end then true else has iter.to xs && leb (order k node) (order k iter.to))
        ≡ true)

-- the node after `prev` is removed, and `next` is its word
abbrev pub Removed : (iter next : Link) (n : ℕ → Link) (xs : List ℕ) → Type 0
Removed iter next n xs =
    (iter.to ≢ end)
    × (has iter.to xs ≡ true)
    × ((n iter.to).removed ≡ true)
    × ((n iter.to).to ≡ next.to)

-- the node that a deletion or a replacement removes
abbrev pub victim : Then → (node : ℕ) → ℕ
victim own node = node
victim (return_replaced c old) node = old

abbrev pub IsVictim : Keys → (v : ℕ) (n : ℕ → Link) (xs : List ℕ) → Type 0
IsVictim k v n xs = (has v xs ≡ true) × ((n v).removed ≡ true) × (k.in_table v ≡ false)

abbrev pub Unlinks : Keys → Then → (b node : ℕ) (n : ℕ → Link) (xs : List ℕ) → Type 0
Unlinks k c b node n xs =
    IsBucket k b node xs
    × IsVictim k (victim c node) n xs
    × (order k (victim c node) ≡ order k node)

-- what a thread knows at each place
abbrev pub At : Keys → Place → (n : ℕ → Link) (xs ys : List ℕ) → Type 0
At k (returned a) n xs ys = true ≡ true
At k (add_first m b node) n xs ys = Adds k m b node xs
At k (add_next m b node prev iter) n xs ys =
    Adds k m b node xs
    × Prev prev iter xs
    × (order k prev ≤ order k node)
    × (iter.to ≢ end)
    × (has iter.to xs ≡ true)
    × (order k iter.to ≤ order k node)
At k (add_duplicate m b node prev iter d) n xs ys =
    Adds k m b node xs
    × Prev prev iter xs
    × Fits k node prev iter xs
    × (d ≢ end)
    × (has d xs ≡ true)
    × (order k node ≤ order k d)
    × (k.reverse_hash d ≤ k.reverse_hash node)
    × (is_table m ≡ false)
At k (add_insert m b node prev iter) n xs ys =
    Adds k m b node xs × Prev prev iter xs × Fits k node prev iter xs
At k (add_gc m b node prev iter next) n xs ys =
    Adds k m b node xs × Prev prev iter xs × Removed iter next n xs
At k (gc_first c b node) n xs ys = Unlinks k c b node n xs
At k (gc_next c b node prev iter) n xs ys =
    Unlinks k c b node n xs
    × Prev prev iter xs
    × (iter.to ≢ end)
    × (has iter.to xs ≡ true)
    × (has (victim c node) ys ≡ true → Reaches n (victim c node) iter.to)
At k (gc_swap c b node prev iter next) n xs ys =
    Unlinks k c b node n xs × Prev prev iter xs × Removed iter next n xs
At k (del_load b node) n xs ys =
    IsBucket k b node xs × (has node xs ≡ true) × (k.in_table node ≡ false)
At k (del_flag b node) n xs ys =
    IsBucket k b node xs × (has node xs ≡ true) × (k.in_table node ≡ false)
At k (del_own_load node) n xs ys = IsVictim k node n xs × (has node ys ≡ false)
At k (del_own node next) n xs ys =
    IsVictim k node n xs
    × (has node ys ≡ false)
    × (next.to ≡ (n node).to)
    × (next.removed ≡ true)
    × (next.owner ≡ true)
    × (next.bucket ≡ false)
At k (replace_swap c b old old_next node) n xs ys =
    IsBucket k b node xs
    × (node ≢ end)
    × (k.in_table node ≡ false)
    × (has old xs ≡ true)
    × (k.in_table old ≡ false)
    × (order k old ≡ order k node)
    × (old_next.removed ≡ false)
    × ((if old_next.to == end then true else has old_next.to xs) ≡ true)
At k (lookup_first key h b) n xs ys = has b xs ≡ true
At k (lookup_next key h node) n xs ys = (node ≢ end) × (has node xs ≡ true)

-- the node that a thread still has to itself
abbrev pub private_node : Place → ℕ
private_node (add_first m b node) = node
private_node (add_next m b node prev iter) = node
private_node (add_duplicate m b node prev iter d) = node
private_node (add_insert m b node prev iter) = node
private_node (add_gc m b node prev iter next) = node
private_node (replace_swap c b old old_next node) = node
private_node _ = end

-- no thread's node is linked, and no two threads have the same
abbrev pub Private : (at : ℕ → Place) (xs : List ℕ) → Type 0
Private w xs =
    ((i : ℕ) → has (private_node (w i)) xs ≡ false)
    × ((i j : ℕ) → i ≢ j → private_node (w i) ≡ private_node (w j) → private_node (w i) ≡ end)

pub record Holds (k : Keys) (first : ℕ) (s : State) (xs ys : List ℕ) : Type 0 where
  pub memory : Linked k first s.next xs ys
  pub places : (i : ℕ) → At k (s.at i) s.next xs ys
  pub private : Private s.at xs

-- what a step of one thread leaves to the others
pub record Grows (n : ℕ → Link) (xs ys : List ℕ) (m : ℕ → Link) (xs' ys' : List ℕ) : Type 0 where
  pub more : (c : ℕ) → has c xs ≡ true → has c xs' ≡ true
  pub fewer : (c : ℕ) → has c xs ≡ true → has c ys ≡ false → has c ys' ≡ false
  pub stays : (c : ℕ) → has c xs ≡ true → (n c).removed ≡ true → (m c).removed ≡ true
  pub frozen : (c : ℕ) → has c xs ≡ true → (n c).removed ≡ true → (m c).to ≡ (n c).to
  pub won : (c : ℕ) → has c xs ≡ true → (n c).owner ≡ true → (m c).owner ≡ true
  pub paths :
      (t a : ℕ)
      → has t xs ≡ true
      → has t ys' ≡ true
      → has a xs ≡ true
      → Reaches n t a
      → Reaches m t a

-- a step that keeps both
abbrev pub Steps :
    Keys → (first : ℕ) → State → (xs ys : List ℕ) → State → (xs' ys' : List ℕ) → Type 0
Steps k first s xs ys t xs' ys' = Holds k first t xs' ys' × Grows s.next xs ys t.next xs' ys'
