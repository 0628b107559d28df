-- ===== src/Tests/Controllers.antt =====
-- The controller with two counters, and the access list, at concrete inputs.
use molaris.Prelude.{ℕ, ◌≡◌, refl, some, List, [], ◌∷◌, arith, ℤ, pos, ok, lookup, nat_eq}
use molaris.Stack.{items}
use molaris.Registry
use molaris.Snapshot
use molaris.Snapshot.{Controllable, Controller}
use molaris.Snapshot.Interface.{Restorable}
use molaris.Snapshot.Guards.{
  ControllerGuards, views, snapshot-ControllerGuards, revert-ControllerGuards,
}
use molaris.Journal.Marks.{StackGuards, forget-StackGuards}
use molaris.Journal.Refund
use molaris.Journal.Refund.{Refund, add_refund-Guards}
use molaris.Journal.AccessList.{AccessLists, AccessJournal}
use molaris.Journal.AccessList
use molaris.Journal.AccessList.Guards.{
  AccessGuards, present, snapshot-AccessGuards, revert-AccessGuards,
}
use molaris.StateDb.Objects.{key_eq}
use molaris.Tests.Hosts.{address_lists, snapshot_numbers}

-- Two counters under one controller, with a snapshot of both taken when the first held 5.
abbrev counters : Controllable ℕ Refund
counters = record {
  registry_key = λ r. r.capacity;
  snapshot = Refund.snapshot;
  revert_to_snapshot = Refund.revert_to_snapshot;
  finalize = λ r. ok (Refund.finalize r);
}

abbrev counters_law : Restorable counters
counters_law = record {
  View = List ℕ;
  view = items;
  Guards = StackGuards;
  forget = forget-StackGuards;
  snapshot-Guards = snapshot_numbers;
  revert-Guards = λ r id v qs g. Refund.revert-Guards r id v qs g;
}

abbrev first : Refund
first = record { size = 2; capacity = 4; buf = 5 ∷ 7 ∷ 0 ∷ 0 ∷ [] }

abbrev second : Refund
second = record { size = 0; capacity = 2; buf = 0 ∷ 0 ∷ [] }

abbrev two_counters : Controller ℕ Refund
two_counters = record {
  items = (4, first) ∷ (2, second) ∷ [];
  journal = record { size = 1; capacity = 1; buf = ((4, pos 1) ∷ (2, pos 0) ∷ []) ∷ [] };
}

two_counters-Guards :
    ControllerGuards counters counters_law two_counters ((pos 0, (4, 5 ∷ []) ∷ (2, []) ∷ []) ∷ [])
two_counters-Guards = record {
  distinct = ((refl, tt), (tt, tt));
  revisions = ((4, pos 1) ∷ (2, pos 0) ∷ []) ∷ [];
  journaled = record {
    valid = record { within = omega arith; filled = refl; grows = omega arith };
    entries = refl;
  };
  history = ((4, pos 1) ∷ (2, pos 0) ∷ [], (4, 5 ∷ []) ∷ (2, []) ∷ []) ∷ [];
  marked = (refl, 0, refl, omega arith, refl, tt);
  guarded = (
    (pos 1, 5 ∷ []) ∷ [],
    ((2, pos 0) ∷ [], (2, []) ∷ []) ∷ [],
    refl,
    record {
      sound = record { within = omega arith; filled = refl; grows = omega arith };
      marks = (1, refl, omega arith, refl, tt);
    },
    (
      (pos 0, []) ∷ [],
      ([], []) ∷ [],
      refl,
      record {
        sound = record { within = omega arith; filled = refl; grows = omega arith };
        marks = (0, refl, omega arith, refl, tt);
      },
      (refl, refl, tt),
    ),
  );
}

snapshot-ControllerGuards_example :
    (c : Controller ℕ Refund) × (id : ℤ) × (Snapshot.snapshot counters two_counters ≡ ok (c, id))
    × (views counters counters_law c.items ≡ (4, 5 ∷ 7 ∷ []) ∷ (2, []) ∷ [])
    × ControllerGuards counters counters_law c
        ((id, (4, 5 ∷ 7 ∷ []) ∷ (2, []) ∷ []) ∷ (pos 0, (4, 5 ∷ []) ∷ (2, []) ∷ []) ∷ [])
snapshot-ControllerGuards_example =
    snapshot-ControllerGuards counters counters_law two_counters
      ((pos 0, (4, 5 ∷ []) ∷ (2, []) ∷ []) ∷ []) two_counters-Guards

revert-ControllerGuards_example :
    (c : Controller ℕ Refund) × (Snapshot.revert_to_snapshot counters two_counters (pos 0) ≡ ok c)
    × (views counters counters_law c.items ≡ (4, 5 ∷ []) ∷ (2, []) ∷ [])
    × ControllerGuards counters counters_law c []
revert-ControllerGuards_example =
    revert-ControllerGuards counters counters_law two_counters (pos 0) ((4, 5 ∷ []) ∷ (2, []) ∷ [])
      [] two_counters-Guards

add_nine :
    (r : Refund) (ps : List (ℤ × List ℕ))
    → StackGuards r ps
    → (r' : Refund) × (Refund.add_refund r 9 ≡ ok r') × StackGuards r' ps
add_nine r ps g = let (r', e, c, g') = add_refund-Guards r 9 ps g in (r', e, g')

found : Registry.get two_counters.items 4 ≡ some first
unfolding Registry.get lookup
found = refl

-- An access list with a snapshot taken when it held one address.
abbrev two_lists : AccessJournal (List ℕ)
two_lists = record {
  objects = (1 ∷ []) ∷ (2 ∷ 1 ∷ []) ∷ [];
  access_list = some 1;
  journal = record { size = 2; capacity = 2; buf = some 0 ∷ some 1 ∷ [] };
}

two_lists-Guards : AccessGuards two_lists ((pos 1, some (1 ∷ [])) ∷ [])
two_lists-Guards = record {
  below = some 0 ∷ [];
  top = 1;
  journaled = record {
    valid = record { within = omega arith; filled = refl; grows = omega arith };
    entries = refl;
  };
  pointed = refl;
  allocated = omega arith;
  points = (0, 0, refl, omega arith, refl, omega arith, refl, tt);
}

snapshot-AccessGuards_example :
    (al : AccessJournal (List ℕ)) × (id : ℤ) × (AccessList.snapshot address_lists two_lists
      ≡ ok (al, id))
    × (present al ≡ some (2 ∷ 1 ∷ []))
    × AccessGuards al ((id, some (2 ∷ 1 ∷ [])) ∷ (pos 1, some (1 ∷ [])) ∷ [])
snapshot-AccessGuards_example =
    snapshot-AccessGuards address_lists two_lists (2 ∷ 1 ∷ []) ((pos 1, some (1 ∷ [])) ∷ [])
      two_lists-Guards refl

revert-AccessGuards_example :
    (al : AccessJournal (List ℕ)) × (AccessList.revert_to_snapshot address_lists two_lists (pos 1)
      ≡ ok al)
    × (present al ≡ some (1 ∷ []))
    × AccessGuards al []
revert-AccessGuards_example =
    revert-AccessGuards address_lists two_lists (pos 1) (some (1 ∷ [])) [] two_lists-Guards
