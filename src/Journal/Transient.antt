-- ===== src/Journal/Transient.antt =====
-- eth/core/state/journal/transient_storage.go: EIP-1153 storage, one whole map for every change. A
-- nil map, as `Peek` gives for an empty stack, reads as an empty one.
use molaris.Prelude.{
  ◌≡◌, refl, ap, inl, inr, ◌&&◌, Option, none, some, List, [], ◌∷◌, arith, ◌==◌, if◌then◌else◌,
  ==_iff, Bool-cases, last_or, last_or-append, ℤ, pos, Exec, ok, lookup, insert, lookup-insert,
  ◌>>=◌, nat_eq,
}
use molaris.Stack
use molaris.Stack.{Stack, items}
use molaris.Stack.Clone.{copy_all}
use molaris.Stack.Items.{peek-Holds}
use molaris.Journal.Marks.{StackGuards, push-StackGuards, revert-StackGuards, holds}
use molaris.Journal.{init_capacity, Address, Hash, zero_hash}

abbrev pub TransientState : Type 0
TransientState = List (Address × List (Hash × Hash))

-- A read of a Go map: the zero value for a key that is not there.
abbrev pub or_zero : Option Hash → Hash
or_zero none = zero_hash
or_zero (some v) = v

abbrev pub or_empty : Option (List (Hash × Hash)) → List (Hash × Hash)
or_empty none = []
or_empty (some m) = m

-- `Set` makes the account's map first if there is none.
unfoldable pub set_value : TransientState → Address → Hash → Hash → TransientState
set_value t addr key value = insert addr (insert key value (or_empty (lookup addr t))) t

unfoldable pub get_value : TransientState → Address → Hash → Hash
get_value t addr key = elim (lookup addr t) [
  | none ↦ zero_hash
  | some val ↦ or_zero (lookup key val)
]

unfoldable pub copy_values : List (Hash × Hash) → List (Hash × Hash)
copy_values [] = []
copy_values ((key, val) ∷ stor_val) = (key, val) ∷ copy_values stor_val

unfoldable pub copy : TransientState → TransientState
copy [] = []
copy ((stor_key, stor_val) ∷ t) = (stor_key, copy_values stor_val) ∷ copy t

abbrev pub TransientStorage : Type 0
TransientStorage = Stack TransientState

unfoldable pub new_transient_storage : TransientStorage
new_transient_storage = Stack.new [] init_capacity

unfoldable pub set_transient_state :
    TransientStorage → Address → Hash → Hash → Exec TransientStorage
set_transient_state t addr key value = do
  current_state ← Stack.peek [] t
  if get_value current_state addr key == value
      then ok t
      else do p ← Stack.push [] t (set_value (copy current_state) addr key value); ok p.0

unfoldable pub get_transient_state : TransientStorage → Address → Hash → Exec Hash
get_transient_state t addr key = do
  current_state ← Stack.peek [] t
  ok (get_value current_state addr key)

unfoldable pub snapshot : TransientStorage → Exec (TransientStorage × ℤ)
snapshot t = ok (t, pos t.size)

unfoldable pub revert_to_snapshot : TransientStorage → ℤ → Exec TransientStorage
revert_to_snapshot t id = do p ← Stack.pop_to_size [] t id; ok p.0

unfoldable pub finalize : TransientStorage → TransientStorage
unfolding new_transient_storage
finalize t = new_transient_storage

unfoldable pub clone : TransientStorage → Exec TransientStorage
clone t = copy_all [] copy t

copy_values-id : (m : List (Hash × Hash)) → copy_values m ≡ m
unfolding copy_values
copy_values-id [] = refl
copy_values-id (kv ∷ m) = ap (kv ∷◌) (copy_values-id m)

copy-id : (t : TransientState) → copy t ≡ t
unfolding copy
copy-id [] = refl
copy-id ((addr, m) ∷ t) = rw (copy_values-id m, copy-id t)

-- A write is read back at its own account and key, and changes no other.
pub get_value-set_value :
    (t : TransientState) (addr a : Address) (key k value : Hash)
    → get_value (set_value t addr key value) a k
      ≡ (if (addr == a) && (key == k) then value else get_value t a k)
unfolding get_value set_value lookup
get_value-set_value t addr a key k value = ground (
  arith,
  lookup-insert addr a (insert key value (or_empty (lookup addr t))) t,
  lookup-insert key k value (or_empty (lookup addr t)),
)

-- The map that reads see.
abbrev pub current : TransientStorage → TransientState
current t = last_or (items t) []

pub get_transient_state-current :
    (t : TransientStorage) (addr : Address) (key : Hash)
    → Stack.IsValid t
    → get_transient_state t addr key ≡ ok (get_value (current t) addr key)
unfolding get_transient_state
get_transient_state-current t addr key v = rw (peek-Holds [] t (items t) (holds t v)) refl

-- A write succeeds, is what later reads see, and keeps every restore point; a write of the present
-- value leaves the journal as it is.
pub set_transient_state-Guards :
    (t : TransientStorage) (addr : Address) (key value : Hash) (ps : List (ℤ × List TransientState))
    → StackGuards t ps
    → (t' : TransientStorage) × (set_transient_state t addr key value ≡ ok t')
      × ((a : Address) (k : Hash)
          → get_value (current t') a k
            ≡ (if (addr == a) && (key == k) then value else get_value (current t) a k))
      × StackGuards t' ps
unfolding set_transient_state
set_transient_state-Guards t addr key value ps g =
    elim (Bool-cases (get_value (current t) addr key == value)) [
      | inl same ↦ (
        t,
        rw (peek-Holds [] t (items t) (holds t g.sound), same) refl,
        λ a k. ground (arith, (==_iff (get_value (current t) addr key) value).0 same),
        g,
      )
      | inr new ↦
          let x : TransientState = set_value (copy (current t)) addr key value in
          let (t', n, e, ei, g') = push-StackGuards [] t x ps g in
          (
            t',
            rw (peek-Holds [] t (items t) (holds t g.sound), new, e) refl,
            λ a k.
                rw (ei, last_or-append (items t) x [], copy-id (current t))
                  (get_value-set_value (current t) addr a key k value),
            g',
          )
    ]

pub revert-Guards :
    (t : TransientStorage) (id : ℤ) (v : List TransientState) (ps : List (ℤ × List TransientState))
    → StackGuards t ((id, v) ∷ ps)
    → (t' : TransientStorage) × (revert_to_snapshot t id ≡ ok t')
      × (items t' ≡ v)
      × StackGuards t' ps
unfolding revert_to_snapshot
revert-Guards t id v ps g =
    let (t', x, e, ei, g') = revert-StackGuards [] t id v ps g in (t', rw e refl, ei, g')
