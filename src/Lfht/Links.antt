-- ===== src/Lfht/Links.antt =====
-- The words `next` of the hash table's nodes, a pointer with three flags: src/rculfhash.c.
use userspace_rcu.Prelude.{ℕ, Bool, true, false, not, ◌&&◌, ◌==◌, if◌then◌else◌}

-- A node is a number, and `get_end` is 0. BUCKET_FLAG says of the node that the word stands in that
-- it is a bucket.
pub record Link : Type 0 where
  pub to : ℕ
  pub removed : Bool
  pub bucket : Bool
  pub owner : Bool

abbrev pub end : ℕ
end = 0

abbrev pub is_end : ℕ → Bool
is_end node = node == end

-- a pointer without flags
abbrev pub clear_flag : ℕ → Link
clear_flag node = record { to = node; removed = false; bucket = false; owner = false }

abbrev pub flag_bucket : Link → Link
flag_bucket w = record w { bucket = true }

abbrev pub flag_removed : Link → Link
flag_removed w = record w { removed = true }

abbrev pub flag_removal_owner : Link → Link
flag_removal_owner w = record w { owner = true }

abbrev pub flag_removed_or_removal_owner : Link → Link
flag_removed_or_removal_owner w = record w { removed = true; owner = true }

abbrev pub same_bool : Bool → Bool → Bool
same_bool true b = b
same_bool false b = not b

-- the comparison of a cmpxchg
unfoldable pub same : Link → Link → Bool
same v w =
    (v.to == w.to)
    && (same_bool v.removed w.removed && (same_bool v.bucket w.bucket && same_bool v.owner w.owner))

-- the pointer `node`, with the bucket flag that the word `iter` has
abbrev pub keep_bucket : (iter : Link) (node : ℕ) → Link
keep_bucket iter node = if iter.bucket then flag_bucket (clear_flag node) else clear_flag node
