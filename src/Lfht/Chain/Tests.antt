-- ===== src/Lfht/Chain/Tests.antt =====
-- Runs of the operations on the list of the hash table.
use userspace_rcu.Prelude.{◌≡◌, refl, false, List, [], ◌∷◌, arith, ◌==◌, has, if◌then◌else◌}
use userspace_rcu.Lfht.Links.{clear_flag, flag_bucket, same}
use userspace_rcu.Lfht.Place.{
  Keys, duplicates, returned, nothing, found, deleted, State, gc_first, own,
}
use userspace_rcu.Lfht.Chain.{
  add, del, lookup, begin, Event, call, access, step, go, add_look, add_read, gc_look, gc_read,
  after_gc, lookup_look, lookup_read,
}
use userspace_rcu.Lfht.Chain.Chained.{put_after}
use userspace_rcu.Lfht.Chain.Invariant.{Holds}
use userspace_rcu.Lfht.Chain.Run.{run, AllAllowed, all_linked, all_chained, run-Holds}
use userspace_rcu.Lfht.Chain.Removal.{all_won}
use userspace_rcu.Lfht.Chain.Collect.{collection-unlinks}
use userspace_rcu.Lfht.Chain.Lookup.{Seeks, lookup-answers}
use userspace_rcu.Lfht.Chain.Contents.{is_present, effects, run-contents}

-- the node 1 is the only bucket; a node's key is its reversed hash
abbrev keys : Keys
keys = record {
  reverse_hash = λ c. if c == 1 then 0 else 4;
  match = λ c key. key == 4;
  in_table = λ c. c == 1;
}

-- an empty table
abbrev empty : State
empty = record {
  next = λ c. if c == 1 then flag_bucket (clear_flag 0) else clear_flag 0;
  at = λ i. returned nothing;
}

empty-Holds : Holds keys 1 empty (1 ∷ []) (1 ∷ [])
empty-Holds = record {
  memory = record {
    chain = (refl, ground arith, refl);
    once = refl;
    starts = refl;
    begins = refl;
    real = refl;
    within = λ c e. e;
    targets = λ c. ground arith;
    sorted = λ c e. ground arith;
    kept = λ c e. ground arith;
    flagged = λ c e. ground arith;
    tables = λ c e. ground arith;
    owned = λ c e. ground arith;
  };
  places = λ i. refl;
  private = ((λ i. refl), (λ i j d e. refl));
}

-- one thread adds the node 10
abbrev adding : List Event
adding = call 1 (add duplicates 1 10) ∷ access 1 ∷ access 1 ∷ []

adding_allowed : AllAllowed keys adding empty (1 ∷ [])
unfolding step go begin add_look add_read
adding_allowed = (
  ((refl, refl, omega arith, ground arith), refl, (ground arith, refl, (λ j. ground arith))),
  (refl, (refl, refl)),
)

run-Holds_example :
    Holds keys 1 (run keys adding empty) (all_linked keys adding empty (1 ∷ [])) (1 ∷ 10 ∷ [])
unfolding run step go begin add_look add_read put_after same
run-Holds_example = run-Holds keys 1 adding empty (1 ∷ []) (1 ∷ []) empty-Holds adding_allowed

-- two threads then delete it
abbrev deleting : List Event
deleting =
    call 1 (add duplicates 1 10)
    ∷ access 1
    ∷ access 1
    ∷ call 2 (del 1 10)
    ∷ call 3 (del 1 10)
    ∷ access 2
    ∷ access 3
    ∷ access 2
    ∷ access 3
    ∷ access 2
    ∷ access 2
    ∷ access 2
    ∷ []

deleting_allowed : AllAllowed keys deleting empty (1 ∷ [])
unfolding step go begin add_look add_read gc_look gc_read same
deleting_allowed = (
  ((refl, refl, omega arith, ground arith), refl, (ground arith, refl, (λ j. ground arith))),
  (
    refl,
    (
      refl,
      (
        ((refl, refl, omega arith, ground arith), refl, refl),
        (
          ((refl, refl, omega arith, ground arith), refl, refl),
          (refl, (refl, (refl, (refl, (refl, (refl, (refl, refl))))))),
        ),
      ),
    ),
  ),
)

-- the second has unlinked the node, and its next pass comes to the end
abbrev unlinked : State
unlinked = run keys deleting empty

unlinked-Holds :
    Holds keys 1 unlinked
      (all_linked keys deleting empty (1 ∷ []))
      (all_chained keys deleting empty (1 ∷ []))
unlinked-Holds = run-Holds keys 1 deleting empty (1 ∷ []) (1 ∷ []) empty-Holds deleting_allowed

unlinked_place : unlinked.at 2 ≡ gc_first own 1 10
unfolding run step go begin add_look add_read gc_look gc_read same
unlinked_place = refl

collection-unlinks_example :
    has 10 (all_chained keys (access 2 ∷ []) unlinked (all_chained keys deleting empty (1 ∷ [])))
    ≡ false
unfolding run step go begin add_look add_read gc_look gc_read after_gc same
collection-unlinks_example =
    collection-unlinks keys 1 2 [] unlinked (all_linked keys deleting empty (1 ∷ []))
      (all_chained keys deleting empty (1 ∷ [])) unlinked-Holds (refl, refl) refl refl

-- both come to the exchange that sets REMOVAL_OWNER_FLAG
abbrev racing : List Event
racing = access 2 ∷ access 3 ∷ access 2 ∷ access 3 ∷ access 3 ∷ access 2 ∷ []

racing_won : all_won keys racing unlinked [] ≡ 10 ∷ []
unfolding run step go begin add_look add_read gc_look gc_read after_gc same
racing_won = refl

racing_lost : (run keys racing unlinked).at 2 ≡ returned (deleted false)
unfolding run step go begin add_look add_read gc_look gc_read after_gc same
racing_lost = refl

run-contents_example :
    is_present (run keys deleting empty) (all_linked keys deleting empty (1 ∷ []))
    ≡ effects keys deleting empty (is_present empty (1 ∷ []))
run-contents_example =
    run-contents keys 1 deleting empty (1 ∷ []) (1 ∷ []) empty-Holds deleting_allowed

-- a lookup that begins when the node has been added
abbrev looking : List Event
looking = call 1 (add duplicates 1 10) ∷ access 1 ∷ access 1 ∷ call 4 (lookup 4 4 1) ∷ []

looking_allowed : AllAllowed keys looking empty (1 ∷ [])
unfolding step go begin add_look add_read same
looking_allowed = (
  ((refl, refl, omega arith, ground arith), refl, (ground arith, refl, (λ j. ground arith))),
  (refl, (refl, (refl, refl))),
)

looking-Holds :
    Holds keys 1
      (run keys looking empty)
      (all_linked keys looking empty (1 ∷ []))
      (all_chained keys looking empty (1 ∷ []))
looking-Holds = run-Holds keys 1 looking empty (1 ∷ []) (1 ∷ []) empty-Holds looking_allowed

abbrev looked : State
looked = run keys (access 4 ∷ access 4 ∷ []) (run keys looking empty)

looked_found : looked.at 4 ≡ returned (found 10 (clear_flag 0))
unfolding run step go begin add_look add_read same lookup_look lookup_read
looked_found = refl

lookup-answers_example : Seeks keys 10 4 4 (looked.at 4) looked.next (10 ∷ 1 ∷ [])
unfolding run step go begin add_look add_read same lookup_look lookup_read
lookup-answers_example =
    lookup-answers keys 1 4 10 4 4 (access 4 ∷ access 4 ∷ []) (run keys looking empty)
      (all_linked keys looking empty (1 ∷ [])) (all_chained keys looking empty (1 ∷ []))
      (refl, refl, refl) looking-Holds (refl, (refl, refl)) refl refl
      (refl, refl, refl, refl, omega arith)
