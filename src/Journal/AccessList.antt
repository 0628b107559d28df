-- ===== src/Journal/AccessList.antt =====
-- eth/core/state/journal/access_list.go: a stack of pointers to access lists, and the pointer to the
-- present one. The lists themselves are go-ethereum's, a parameter here; `objects` is the store that
-- the pointers point into, since a change goes through the pointer and not through the stack.
pub mod Guards
use molaris.Prelude.{
  ℕ, zero, suc, ◌+◌, ◌-◌, ◌≡◌, Bool, ◌||◌, Option, none, some, List, [], ◌∷◌, ◌++◌, ◌==◌, length,
  get_elem?, set, ℤ, sub_ℕ, pos, Exec, ◌>>=◌, checked, nil_access, ok, panics,
}
use molaris.Stack
use molaris.Stack.{Stack}
use molaris.Journal.{init_capacity, Address, Hash}

-- go-ethereum's `state.accessList`.
pub record AccessLists (L : Type 0) : Type 0 where
  pub new_list : L
  pub add_address : Address → L → L
  pub add_slot : Address → Hash → L → L
  pub contains_address : L → Address → Bool
  pub contains : L → Address → Hash → Bool × Bool
  pub copy : L → L
  -- `Copy` makes an equal list.
  pub copy_lem : (l : L) → copy l ≡ l
  pub contains_address-add_address :
      (a b : Address) (l : L)
      → contains_address (add_address a l) b ≡ ((a == b) || contains_address l b)

pub record AccessJournal (L : Type 0) : Type 0 where
  pub objects : List L
  pub access_list : Option ℕ
  pub journal : Stack (Option ℕ)

-- A method call on a nil pointer panics.
abbrev pub pointer : Option ℕ → Exec ℕ
pointer none = panics nil_access
pointer (some p) = ok p

module _ {L : Type 0} (lists : AccessLists L) where
  unfoldable pub new_accesslist : Exec (AccessJournal L)
  new_accesslist = do
    p ← Stack.push none (Stack.new none init_capacity) (some 0)
    top ← Stack.peek none p.0
    ok (record { objects = lists.new_list ∷ []; access_list = top; journal = p.0 })

  abbrev pub load : AccessJournal L → Option ℕ → Exec L
  load al p = pointer p >>= λ r. checked (get_elem? al.objects r)

  -- A change through the pointer to the present list.
  unfoldable pub change : (L → L) → AccessJournal L → Exec (AccessJournal L)
  change f al = do
    r ← pointer al.access_list
    l ← checked (get_elem? al.objects r)
    ok (record al { objects = set al.objects r (f l) })

  unfoldable pub add_address_to_access_list : AccessJournal L → Address → Exec (AccessJournal L)
  add_address_to_access_list al addr = change (lists.add_address addr) al

  unfoldable pub add_slot_to_access_list : AccessJournal L → Address → Hash → Exec (AccessJournal L)
  add_slot_to_access_list al addr slot = change (lists.add_slot addr slot) al

  unfoldable pub address_in_access_list : AccessJournal L → Address → Exec Bool
  address_in_access_list al addr = do l ← load al al.access_list; ok (lists.contains_address l addr)

  unfoldable pub slot_in_access_list : AccessJournal L → Address → Hash → Exec (Bool × Bool)
  slot_in_access_list al addr slot = do l ← load al al.access_list; ok (lists.contains l addr slot)

  unfoldable pub snapshot : AccessJournal L → Exec (AccessJournal L × ℤ)
  snapshot al = do
    l ← load al al.access_list
    let r = length al.objects
    p ← Stack.push none al.journal (some r)
    ok (
      record { objects = al.objects ++ lists.copy l ∷ []; access_list = some r; journal = p.0 },
      sub_ℕ p.0.size 1,
    )

  unfoldable pub revert_to_snapshot : AccessJournal L → ℤ → Exec (AccessJournal L)
  revert_to_snapshot al id = do
    p ← Stack.pop_to_size none al.journal id
    top ← Stack.peek none p.0
    ok (record al { access_list = top; journal = p.0 })

  unfoldable pub finalize : AccessJournal L → Exec (AccessJournal L)
  finalize al = new_accesslist

  -- `for i := 1; i < size; i++ { cpy.journal.Push(al.journal.PeekAt(i).Copy()) }`
  unfoldable pub copy_from : ℕ → AccessJournal L → ℕ → AccessJournal L → Exec (AccessJournal L)
  copy_from zero al i cpy = ok cpy
  copy_from (suc rounds) al i cpy = do
    p ← Stack.peek_at none al.journal (pos i)
    l ← load al p
    q ← Stack.push none cpy.journal (some (length cpy.objects))
    copy_from rounds al (i + 1)
        (record cpy { objects = cpy.objects ++ lists.copy l ∷ []; journal = q.0 })

  unfoldable pub clone : AccessJournal L → Exec (AccessJournal L)
  clone al = do
    let size = al.journal.size
    l ← load al al.access_list
    p ← Stack.push none (Stack.new none size) (some 0)
    copy_from (size - 1) al 1
        (record { objects = lists.copy l ∷ []; access_list = some 0; journal = p.0 })
