-- ===== src/Snapshot.antt =====
-- lib/snapshot/controller.go: one snapshot of all the objects that are registered with the
-- controller, and the interface of such an object (`libtypes.Controllable`, of lib/types).
pub mod Interface
pub mod Kinds
pub mod Guards
pub mod Change
use molaris.Prelude.{
  ℕ, none, some, List, [], ◌∷◌, ℤ, sub_ℕ, Exec, nil_access, ok, panics, Eq, insert, ◌>>=◌, nat_eq,
}
use molaris.Stack
use molaris.Stack.{Stack}
use molaris.Registry

abbrev pub init_journal_capacity : ℕ
init_journal_capacity = 32

-- What a `Controllable` can do. Each method returns the object as it is afterwards.
pub record Controllable (K T : Type 0) : Type 0 where
  pub registry_key : T → K
  pub snapshot : T → Exec (T × ℤ)
  pub revert_to_snapshot : T → ℤ → Exec T
  pub finalize : T → Exec T

-- A revision maps each registered key to the id of that object's snapshot.
pub record Controller (K T : Type 0) : Type 0 where
  pub items : List (K × T)
  pub journal : Stack (List (K × ℤ))

unfoldable pub new_controller : {K T : Type 0} → Controller K T
new_controller = record { items = []; journal = Stack.new [] init_journal_capacity }

module _ {K T : Type 0} ⦃e : Eq K⦄ (methods : Controllable K T) where
  -- `for key, controllable := range c.Iterate() { newRevision[key] = controllable.Snapshot() }`
  unfoldable pub snapshot_items : List (K × T) → Exec (List (K × T) × List (K × ℤ))
  snapshot_items [] = ok ([], [])
  snapshot_items ((key, controllable) ∷ rest) = do
    r ← methods.snapshot controllable
    q ← snapshot_items rest
    ok ((key, r.0) ∷ q.0, (key, r.1) ∷ q.1)

  -- The id returned is one less than the new size.
  unfoldable pub snapshot : Controller K T → Exec (Controller K T × ℤ)
  snapshot c = do
    r ← snapshot_items (Registry.iterate c.items)
    p ← Stack.push [] c.journal r.1
    ok (record { items = r.0; journal = p.0 }, sub_ℕ p.1 1)

  -- `for key, revertedSnapshot := range … { c.Get(key).RevertToSnapshot(revertedSnapshot) }`
  unfoldable pub revert_items : List (K × ℤ) → List (K × T) → Exec (List (K × T))
  revert_items [] items = ok items
  revert_items ((key, reverted_snapshot) ∷ rest) items = elim (Registry.get items key) [
    | none ↦ panics nil_access
    | some controllable ↦ do
      controllable' ← methods.revert_to_snapshot controllable reverted_snapshot
      revert_items rest (insert key controllable' items)
  ]

  unfoldable pub revert_to_snapshot : Controller K T → ℤ → Exec (Controller K T)
  revert_to_snapshot c id = do
    p ← Stack.pop_to_size [] c.journal id
    items ← revert_items p.1 c.items
    ok (record { items = items; journal = p.0 })

  -- `for _, controllable := range c.Iterate() { controllable.Finalize() }`
  unfoldable pub finalize_items : List (K × T) → Exec (List (K × T))
  finalize_items [] = ok []
  finalize_items ((key, controllable) ∷ rest) = do
    t ← methods.finalize controllable
    q ← finalize_items rest
    ok ((key, t) ∷ q)

  unfoldable pub finalize : Controller K T → Exec (Controller K T)
  finalize c = do items ← finalize_items (Registry.iterate c.items); ok (record c { items = items })
