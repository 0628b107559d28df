-- ===== src/Store.antt =====
-- cosmos/x/evm/store/snapmulti/store.go and store/cachekv/readonly_store.go: the multi-store of a
-- transaction. It keeps a map from store keys to cached stores for every snapshot. The SDK's cached
-- stores are a parameter; a store stands for itself with all that it is cached over.
pub mod Views
pub mod Maps
pub mod Guards
pub mod Finalize
pub mod Columns
pub mod Levels
pub mod Writes
pub mod Committed
pub mod Layered
use molaris.Prelude.{
  ℕ, zero, suc, ◌-◌, Bool, false, Option, none, some, List, [], ◌∷◌, if◌then◌else◌, set, ℤ, sub_ℕ,
  Exec, ◌>>=◌, nil_access, write_protection, ok, panics, lookup, insert, nat_eq,
}
use molaris.Stack
use molaris.Stack.{Stack}

abbrev pub Bytes : Type 0
Bytes = List ℕ

abbrev pub StoreKey : Type 0
StoreKey = ℕ

-- What the SDK's `cachekv.Store` does: `put` is `Set`, `wrap` is `cachekv.NewStore` and `CacheWrap`; `write child
-- parent` is the parent once `child.Write()` has been called.
pub record CacheKv (S : Type 0) : Type 0 where
  pub get : S → Bytes → Option Bytes
  pub put : Bytes → Bytes → S → S
  pub delete : Bytes → S → S
  pub wrap : S → S
  pub write : S → S → S

abbrev pub init_journal_capacity : ℕ
init_journal_capacity = 16

abbrev pub MapMultiStore : Type 0 → Type 0
MapMultiStore S = List (StoreKey × S)

-- `committed` is the underlying `MultiStore`, the stores that are mounted in it.
pub record Store (S : Type 0) : Type 0 where
  pub committed : List (StoreKey × S)
  pub root : MapMultiStore S
  pub journal : Stack (Option (MapMultiStore S))
  pub read_only : Bool

-- `if cms = s.journal.Peek(); cms == nil { cms = s.root }`
abbrev pub or_root : {S : Type 0} → MapMultiStore S → Option (MapMultiStore S) → MapMultiStore S
or_root root none = root
or_root root (some cms) = cms

module _ {S : Type 0} (kv : CacheKv S) where
  unfoldable pub new_store_from : List (StoreKey × S) → Store S
  new_store_from ms = record {
    committed = ms;
    root = [];
    journal = Stack.new none init_journal_capacity;
    read_only = false;
  }

  unfoldable pub is_read_only : Store S → Bool
  is_read_only s = s.read_only

  unfoldable pub set_read_only : Store S → Bool → Store S
  set_read_only s read_only = record s { read_only = read_only }

  -- The SDK panics for a key that is not mounted.
  abbrev pub mounted : Option S → Exec S
  mounted none = panics nil_access
  mounted (some c) = ok c

  unfoldable pub get_committed_kv_store : Store S → StoreKey → Exec S
  get_committed_kv_store s key = mounted (lookup key s.committed)

  -- A change of the map that `Peek` returned, or of the root where it returned nil.
  abbrev pub put_map : Store S → Option (MapMultiStore S) → MapMultiStore S → Store S
  put_map s none cms = record s { root = cms }
  put_map s (some old) cms = record s {
    journal = record (s.journal) { buf = set s.journal.buf (s.journal.size - 1) (some cms) };
  }

  -- `if cms[key] == nil { cms[key] = cachekv.NewStore(s.GetCommittedKVStore(key)) }`, with `found` for
  -- `cms[key]`.
  unfoldable pub cached : Store S → StoreKey → Option S → Exec S
  cached s key (some c) = ok c
  cached s key none = get_committed_kv_store s key >>= λ base. ok (kv.wrap base)

  -- The entry is put back also where it was there.
  unfoldable pub get_kv_store : Store S → StoreKey → Exec (Store S × S)
  get_kv_store s key = do
    o ← Stack.peek none s.journal
    let cms = or_root s.root o
    c ← cached s key (lookup key cms)
    ok (put_map s o (insert key c cms), c)

  -- A write through the store that `GetKVStore` returns, which panics on a read-only one.
  unfoldable pub change : (S → S) → StoreKey → Store S → Exec (Store S)
  change f key s = do
    r ← get_kv_store s key
    o ← Stack.peek none (r.0).journal
    if s.read_only
        then panics write_protection
        else ok (put_map r.0 o (insert key (f r.1) (or_root (r.0).root o)))

  unfoldable pub read : Store S → StoreKey → Bytes → Exec (Store S × Option Bytes)
  read s key k = get_kv_store s key >>= λ r. ok (r.0, kv.get r.1 k)

  -- `revision[key] = cacheKVStore.CacheWrap()` for every key.
  abbrev pub wrap_all : MapMultiStore S → MapMultiStore S
  wrap_all [] = []
  wrap_all ((key, c) ∷ rest) = (key, kv.wrap c) ∷ wrap_all rest

  unfoldable pub snapshot : Store S → Exec (Store S × ℤ)
  snapshot s = do
    o ← Stack.peek none s.journal
    p ← Stack.push none s.journal (some (wrap_all (or_root s.root o)))
    ok (record s { journal = p.0 }, sub_ℕ p.1 1)

  unfoldable pub revert_to_snapshot : Store S → ℤ → Exec (Store S)
  revert_to_snapshot s id = do
    p ← Stack.pop_to_size none s.journal id
    ok (record s { journal = p.0 })

  -- `cacheKVStore.Write()` where it is cached over the committed store.
  abbrev pub write_committed : Store S → StoreKey → S → Option S → Store S
  write_committed s key c none = s
  write_committed s key c (some base) = record s {
    committed = insert key (kv.write c base) s.committed;
  }

  -- The parent is the store of the map below, or the committed one where that map has none.
  abbrev pub write_to :
      Store S → StoreKey → S → Option (MapMultiStore S) → MapMultiStore S → Option S → Store S
  write_to s key c o cms (some parent) = put_map s o (insert key (kv.write c parent) cms)
  write_to s key c o cms none = write_committed s key c (lookup key s.committed)

  unfoldable pub write_entry : Store S → StoreKey → S → Exec (Store S)
  write_entry s key c = do
    o ← Stack.peek none s.journal
    let cms = or_root s.root o
    ok (write_to s key c o cms (lookup key cms))

  -- `for key, cacheKVStore := range revision`; nothing reads the entries that it deletes.
  unfoldable pub write_revision : MapMultiStore S → Store S → Exec (Store S)
  write_revision [] s = ok s
  write_revision ((key, c) ∷ rest) s = write_entry s key c >>= write_revision rest

  -- `for revision := s.journal.Pop(); revision != nil; revision = s.journal.Pop()`, on fuel.
  unfoldable pub finalize_revisions : ℕ → Store S → Exec (Store S)
  finalize_revisions zero s = ok s
  finalize_revisions (suc fuel) s = do
    p ← Stack.pop none s.journal
    elim p.1 [
      | none ↦ ok (record s { journal = p.0 })
      | some revision ↦
          write_revision revision (record s { journal = p.0 }) >>= finalize_revisions fuel
    ]

  -- `for key, cacheKVStore := range s.root`.
  unfoldable pub finalize_root : MapMultiStore S → Store S → Store S
  finalize_root [] s = record s { root = [] }
  finalize_root ((key, c) ∷ rest) s =
      finalize_root rest (write_committed s key c (lookup key s.committed))

  unfoldable pub finalize : Store S → Exec (Store S)
  finalize s = do s' ← finalize_revisions (suc s.journal.size) s; ok (finalize_root s'.root s')
