-- ===== src/Store/Levels.antt =====
-- The maps of the multi-store as levels, the newest first and the root last, whatever the journal's
-- stack looks like.
use molaris.Prelude.{
  ◌-◌, ◌≤◌, ◌≡◌, refl, ap, ◌∙◌, subst, Option, none, some, List, [], ◌∷◌, ◌++◌, arith, length,
  get_or, set, take, last_or, length-append, take_all, take-append, last_or-append, pos, ok,
}
use molaris.Stack
use molaris.Stack.{Stack, items}
use molaris.Stack.Items.{Holds, peek-Holds, pop-Holds, pop_to_size-Holds, set-Holds, size-eq-length}
use molaris.Store.{CacheKv, MapMultiStore, Store, or_root, put_map}

module _ {M : Type 0} where
  -- The journal of a store with these levels, oldest first.
  abbrev pub journaled : M → List M → List (Option M)
  journaled top [] = []
  journaled top (next ∷ rest) = journaled next rest ++ some top ∷ []

  abbrev bottom : M → List M → M
  bottom top [] = top
  bottom top (next ∷ rest) = bottom next rest

  -- What `Peek` returns.
  abbrev pub peeked : M → List M → Option M
  peeked top [] = none
  peeked top (next ∷ rest) = some top

  length-journaled : (top : M) (below : List M) → length (journaled top below) ≡ length below
  length-journaled top [] = refl
  length-journaled top (next ∷ rest) =
      length-append (journaled next rest) (some top ∷ [])
      ∙ omega (arith, length-journaled next rest)

  pub last_or-journaled :
      (top : M) (below : List M) → last_or (journaled top below) none ≡ peeked top below
  last_or-journaled top [] = refl
  last_or-journaled top (next ∷ rest) = last_or-append (journaled next rest) (some top) none

-- A pop returns the last entry and keeps the others.
pop_last :
    {A : Type 0} (zero_value : A) (s : Stack A) (xs : List A) (y : A)
    → Holds s (xs ++ y ∷ [])
    → (j : Stack A) × (Stack.pop zero_value s ≡ ok (j, y)) × Holds j xs
pop_last z s [] y h = pop-Holds z s y [] h
pop_last z s (x ∷ xs) y h =
    let (j, e, h') = pop-Holds z s x (xs ++ y ∷ []) h in
    let n : length (xs ++ y ∷ []) ≡ length (x ∷ xs) = omega (arith, length-append xs (y ∷ [])) in
    (
      j,
      e ∙ ap (λ v. ok (j, v)) (last_or-append (x ∷ xs) y z),
      subst (Holds j)
          (ap (λ i. take i (x ∷ xs ++ y ∷ [])) n
            ∙ take-append (length (x ∷ xs)) (x ∷ xs) (y ∷ []) (omega arith)
            ∙ take_all (length (x ∷ xs)) (x ∷ xs) (omega arith))
          h',
    )

module _ {S : Type 0} where
  or_root-peeked :
      (top : MapMultiStore S) (below : List (MapMultiStore S))
      → or_root (bottom top below) (peeked top below) ≡ top
  or_root-peeked top [] = refl
  or_root-peeked top (next ∷ rest) = refl

  -- A store whose journal and root are these levels.
  pub record HasLevels (s : Store S) (top : MapMultiStore S) (below : List (MapMultiStore S))
      : Type 0 where
    pub held : Holds s.journal (journaled top below)
    pub rooted : s.root ≡ bottom top below

  pub peek-levels :
      (s : Store S) (top : MapMultiStore S) (below : List (MapMultiStore S))
      → HasLevels s top below
      → Stack.peek none s.journal ≡ ok (peeked top below)
  peek-levels s top below h =
      peek-Holds none s.journal (journaled top below) h.held ∙ ap ok (last_or-journaled top below)

  pub top-levels :
      (s : Store S) (top : MapMultiStore S) (below : List (MapMultiStore S))
      → HasLevels s top below
      → or_root s.root (peeked top below) ≡ top
  top-levels s top below h =
      ap (λ r. or_root r (peeked top below)) h.rooted ∙ or_root-peeked top below

  pub size-levels :
      (s : Store S) (top : MapMultiStore S) (below : List (MapMultiStore S))
      → HasLevels s top below
      → s.journal.size ≡ length below
  size-levels s top below h = size-eq-length h.held ∙ length-journaled top below

  -- The newest level is replaced, in the journal or at the root.
  pub put_map-levels :
      (kv : CacheKv S) (s : Store S) (top cms : MapMultiStore S) (below : List (MapMultiStore S))
      → HasLevels s top below
      → HasLevels (put_map kv s (peeked top below) cms) cms below
  put_map-levels kv s top cms [] h = record { held = h.held; rooted = refl }
  put_map-levels kv s top cms (next ∷ rest) h =
      let xs = journaled next rest in
      let last : length xs ≡ s.journal.size - 1 =
        omega (arith, size-eq-length h.held, length-append xs (some top ∷ [])) in
      record {
        held =
            subst
              (λ i.
                Holds (record (s.journal) { buf = set s.journal.buf i (some cms) })
                  (xs ++ some cms ∷ []))
              last (set-Holds none s.journal xs [] (some top) (some cms) h.held);
        rooted = h.rooted;
      }

  -- A pop takes the newest level off.
  pub pop-levels :
      (s : Store S) (top next : MapMultiStore S) (rest : List (MapMultiStore S))
      → HasLevels s top (next ∷ rest)
      → (j : Stack (Option (MapMultiStore S))) × (Stack.pop none s.journal ≡ ok (j, some top))
        × HasLevels (record s { journal = j }) next rest
  pop-levels s top next rest h =
      let (j, e, h') = pop_last none s.journal (journaled next rest) (some top) h.held in
      (j, e, record { held = h'; rooted = h.rooted })

  take-journaled :
      (top next : MapMultiStore S) (later rest : List (MapMultiStore S))
      → (length rest ≤ length (journaled top (later ++ next ∷ rest)))
        × (take (length rest) (journaled top (later ++ next ∷ rest)) ≡ journaled next rest)
        × (bottom top (later ++ next ∷ rest) ≡ bottom next rest)
  take-journaled top next [] rest =
      let xs = journaled next rest in
      let n = length-journaled next rest in
      let m = length-append xs (some top ∷ []) in
      (
        omega (arith, n, m),
        take-append (length rest) xs (some top ∷ []) (omega (arith, n))
            ∙ take_all (length rest) xs (omega (arith, n)),
        refl,
      )
  take-journaled top next (m ∷ later) rest =
      let xs = journaled m (later ++ next ∷ rest) in
      let (within, same, root) = take-journaled m next later rest in
      (
        omega (arith, within, length-append xs (some top ∷ [])),
        take-append (length rest) xs (some top ∷ []) within ∙ same,
        root,
      )

  -- A pop to a size takes the levels off that came later.
  pub pop_to_size-levels :
      (s : Store S) (top next : MapMultiStore S) (later rest : List (MapMultiStore S))
      → HasLevels s top (later ++ next ∷ rest)
      → (j : Stack (Option (MapMultiStore S))) × (Stack.pop_to_size none s.journal
            (pos (length rest))
          ≡ ok (j, get_or (journaled top (later ++ next ∷ rest)) (length rest) none))
        × HasLevels (record s { journal = j }) next rest
  pop_to_size-levels s top next later rest h =
      let (within, same, root) = take-journaled top next later rest in
      let (j, e, h') =
        pop_to_size-Holds none s.journal (journaled top (later ++ next ∷ rest)) (length rest) h.held
          within in
      (j, e, record { held = subst (Holds j) same h'; rooted = h.rooted ∙ root })
