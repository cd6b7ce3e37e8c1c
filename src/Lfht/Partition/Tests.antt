-- ===== src/Lfht/Partition/Tests.antt =====
-- The parts of concrete passes.
use userspace_rcu.Prelude.{◌≡◌, refl, true, some, [], ◌∷◌, arith, ltb, ◌^◌}
use userspace_rcu.Lfht.Partition.{partition_resize_helper}
use userspace_rcu.Lfht.Partition.Covers.{Consecutive, parts-cover}

-- Four CPUs, and the third thread cannot be created.
third_fails :
    partition_resize_helper (some 3) 65536 true (λ t. ltb t 2)
    ≡ (0, 16384) ∷ (16384, 16384) ∷ (32768, 32768) ∷ []
unfolding partition_resize_helper
third_fails = refl

parts-cover_example :
    Consecutive 0 (partition_resize_helper (some 3) (2 ^ 16) true (λ t. ltb t 2)) (2 ^ 16)
parts-cover_example =
    parts-cover (some 3) 16 true (λ t. ltb t 2) (2, (omega arith, refl)) (omega arith)
