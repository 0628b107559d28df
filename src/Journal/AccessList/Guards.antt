-- ===== src/Journal/AccessList/Guards.antt =====
-- What a snapshot of the access list guards: the list below the top of the stack is not changed by
-- what goes through the pointer to the top one, and a revert points to it again.
use molaris.Prelude.{
  ℕ, suc, ◌≤◌, ◌<◌, ◌≡◌, refl, ap, ◌∙◌, subst, Option, none, some, List, [], ◌∷◌, ◌++◌, arith,
  length, get_elem?, get_or, set, take, length-append, length-set, length-take, get_elem?-take,
  get_elem?-eq-get_or, last_or-append, get_elem?-append_left, get_elem?-append_length, take-suc,
  get_elem?-set_ne, get_elem?-set_self, ℤ, pos, ok,
}
use mathlib.Core.Path.{subst₂}
use molaris.Stack.Items.{Holds, push-Holds, pop_to_size-Holds, peek-Holds, size-eq-length}
use molaris.Journal.{Address}
use molaris.Journal.AccessList.{
  AccessLists, AccessJournal, change, address_in_access_list, snapshot, revert_to_snapshot,
}

module _ {L : Type 0} where
  -- The list that the journal's pointer points to.
  abbrev pub present : AccessJournal L → Option L
  present al = elim al.access_list [ none ↦ none | some r ↦ get_elem? al.objects r ]

  abbrev pub Points : ℕ → ℕ → List (Option ℕ) → List L → List (ℤ × Option L) → Type 0
  Points bound top refs objects [] = Unit {0}
  Points bound top refs objects ((id, v) ∷ ps) =
      (n : ℕ) × (r : ℕ) × (id ≡ pos (suc n))
      × (suc n < bound)
      × (get_elem? refs n ≡ some (some r))
      × (r < top)
      × (get_elem? objects r ≡ v)
      × Points (suc n) r refs objects ps

  -- The pointer to the present list is the one on the top of the stack.
  pub record AccessGuards (al : AccessJournal L) (ps : List (ℤ × Option L)) : Type 0 where
    pub below : List (Option ℕ)
    pub top : ℕ
    pub journaled : Holds al.journal (below ++ some top ∷ [])
    pub pointed : al.access_list ≡ some top
    pub allocated : top < length al.objects
    pub points : Points (suc (length below)) top (below ++ some top ∷ []) al.objects ps

  Points-set :
      (bound top r : ℕ) (refs : List (Option ℕ)) (objects : List L) (l : L)
      (ps : List (ℤ × Option L))
      → top ≤ r
      → Points bound top refs objects ps
      → Points bound top refs (set objects r l) ps
  Points-set bound top r refs objects l [] h p = tt
  Points-set bound top r refs objects l ((id, v) ∷ ps) h (n, q, ei, lt, eg, lr, eo, p) = (
    n,
    q,
    ei,
    lt,
    eg,
    lr,
    get_elem?-set_ne objects l (λ e. absurd (omega arith)) ∙ eo,
    Points-set (suc n) q r refs objects l ps (omega arith) p,
  )

  Points-append :
      (bound top : ℕ) (refs : List (Option ℕ)) (objects : List L) (x : Option ℕ) (l : L)
      (ps : List (ℤ × Option L))
      → bound ≤ length refs
      → top < length objects
      → Points bound top refs objects ps
      → Points bound top (refs ++ x ∷ []) (objects ++ l ∷ []) ps
  Points-append bound top refs objects x l [] h k p = tt
  Points-append bound top refs objects x l ((id, v) ∷ ps) h k (n, q, ei, lt, eg, lr, eo, p) = (
    n,
    q,
    ei,
    lt,
    get_elem?-append_left refs (x ∷ []) n (omega arith) ∙ eg,
    lr,
    get_elem?-append_left objects (l ∷ []) q (omega arith) ∙ eo,
    Points-append (suc n) q refs objects x l ps (omega arith) (omega arith) p,
  )

  Points-take :
      (bound top k : ℕ) (refs : List (Option ℕ)) (objects : List L) (ps : List (ℤ × Option L))
      → bound ≤ k
      → Points bound top refs objects ps
      → Points bound top (take k refs) objects ps
  Points-take bound top k refs objects [] h p = tt
  Points-take bound top k refs objects ((id, v) ∷ ps) h (n, q, ei, lt, eg, lr, eo, p) = (
    n,
    q,
    ei,
    lt,
    get_elem?-take k n refs (omega arith) ∙ eg,
    lr,
    eo,
    Points-take (suc n) q k refs objects ps (omega arith) p,
  )

  -- A newer restore point that is dropped leaves the older ones as they were.
  pub forget-AccessGuards :
      (al : AccessJournal L) (p : ℤ × Option L) (ps : List (ℤ × Option L))
      → AccessGuards al (p ∷ ps)
      → AccessGuards al ps
  forget-AccessGuards al p [] g = record {
    below = g.below;
    top = g.top;
    journaled = g.journaled;
    pointed = g.pointed;
    allocated = g.allocated;
    points = tt;
  }
  forget-AccessGuards al p ((id, v) ∷ ps) g =
      let (n, r, ei, lt, eg, lr, eo, (n', r', ei', lt', eg', lr', eo', rest)) = g.points in
      record {
        below = g.below;
        top = g.top;
        journaled = g.journaled;
        pointed = g.pointed;
        allocated = g.allocated;
        points = (n', r', ei', omega arith, eg', omega arith, eo', rest);
      }

  pub present-eq :
      (al : AccessJournal L) (r : ℕ) → al.access_list ≡ some r → present al ≡ get_elem? al.objects r
  present-eq al r e = ground arith

  top_list :
      (al : AccessJournal L) (r : ℕ) (l : L)
      → al.access_list ≡ some r
      → present al ≡ some l
      → get_elem? al.objects r ≡ some l
  top_list al r l e p = ground arith

module _ {L : Type 0} (lists : AccessLists L) where
  -- A change through the pointer changes the present list, and no guarded one.
  pub change-AccessGuards :
      (f : L → L) (al : AccessJournal L) (l : L) (ps : List (ℤ × Option L))
      → AccessGuards al ps
      → present al ≡ some l
      → (al' : AccessJournal L) × (change lists f al ≡ ok al')
        × (present al' ≡ some (f l))
        × AccessGuards al' ps
  unfolding change
  change-AccessGuards f al l ps g e = (
    record al { objects = set al.objects g.top (f l) },
    simp (g.pointed, top_list al g.top l g.pointed e),
    simp (g.pointed, get_elem?-set_self al.objects g.top (f l) g.allocated),
    record {
      below = g.below;
      top = g.top;
      journaled = g.journaled;
      pointed = g.pointed;
      allocated = omega (arith, g.allocated, length-set al.objects g.top (f l));
      points = Points-set _ g.top g.top _ al.objects (f l) ps (omega arith) g.points;
    },
  )

  -- A snapshot succeeds, shows an equal list, and adds a restore point to those there are.
  pub snapshot-AccessGuards :
      (al : AccessJournal L) (l : L) (ps : List (ℤ × Option L))
      → AccessGuards al ps
      → present al ≡ some l
      → (al' : AccessJournal L) × (id : ℤ) × (snapshot lists al ≡ ok (al', id))
        × (present al' ≡ some l)
        × AccessGuards al' ((id, some l) ∷ ps)
  unfolding snapshot
  snapshot-AccessGuards al l ps g e =
      let refs : List (Option ℕ) = g.below ++ some g.top ∷ [] in
      let r = length al.objects in
      let (j, ej, h) = push-Holds none al.journal refs (some r) g.journaled in
      let objects : List L = al.objects ++ l ∷ [] in
      let size : length refs ≡ suc (length g.below) =
        omega (arith, length-append g.below (some g.top ∷ [])) in
      (
        record { objects = objects; access_list = some r; journal = j },
        pos (suc (length g.below)),
        simp (g.pointed, top_list al g.top l g.pointed e, ej, lists.copy_lem l)
            (ap (λ i. ok (record { objects = objects; access_list = some r; journal = j }, i))
              (ground (arith, size-eq-length h, length-append refs (some r ∷ []), size))),
        get_elem?-append_length al.objects l,
        record {
          below = refs;
          top = r;
          journaled = h;
          pointed = refl;
          allocated = omega (arith, length-append al.objects (l ∷ []));
          points = (
            length g.below,
            g.top,
            refl,
            omega (arith, size),
            get_elem?-append_left refs (some r ∷ []) (length g.below) (omega (arith, size))
                ∙ get_elem?-append_length g.below (some g.top),
            g.allocated,
            get_elem?-append_left al.objects (l ∷ []) g.top g.allocated
                ∙ top_list al g.top l g.pointed e,
            Points-append _ g.top refs al.objects (some r) l ps (omega (arith, size)) g.allocated
                g.points,
          );
        },
      )

  -- A revert to the newest restore point succeeds, brings its list back, and keeps the older ones.
  pub revert-AccessGuards :
      (al : AccessJournal L) (id : ℤ) (v : Option L) (ps : List (ℤ × Option L))
      → AccessGuards al ((id, v) ∷ ps)
      → (al' : AccessJournal L) × (revert_to_snapshot lists al id ≡ ok al')
        × (present al' ≡ v)
        × AccessGuards al' ps
  unfolding revert_to_snapshot
  revert-AccessGuards al id v ps g =
      let refs : List (Option ℕ) = g.below ++ some g.top ∷ [] in
      let (n, r, ei, lt, eg, lr, eo, rest) = g.points in
      let size : length refs ≡ suc (length g.below) =
        omega (arith, length-append g.below (some g.top ∷ [])) in
      let (j, ej, h) =
        pop_to_size-Holds none al.journal refs (suc n) g.journaled (omega (arith, size)) in
      let entry : get_or refs n none ≡ some r =
        cc (get_elem?-eq-get_or refs n none (omega (arith, size))) in
      let kept : take (suc n) refs ≡ take n refs ++ some r ∷ [] =
        take-suc n refs none (omega (arith, size)) ∙ ap (λ x. take n refs ++ x ∷ []) entry in
      let h' : Holds j (take n refs ++ some r ∷ []) = subst (Holds j) kept h in
      (
        record al { access_list = some r; journal = j },
        rw (ei, ej, peek-Holds none j _ h', last_or-append (take n refs) (some r) none) refl,
        eo,
        record {
          below = take n refs;
          top = r;
          journaled = h';
          pointed = refl;
          allocated = omega (arith, lr, g.allocated);
          points =
              subst₂ (λ b xs. Points b r xs al.objects ps)
                (omega (arith, length-take n refs, size, lt)) kept
                (Points-take (suc n) r (suc n) refs al.objects ps (omega arith) rest);
        },
      )

  -- What the journal finds is what the present list holds.
  pub address_in_present :
      (al : AccessJournal L) (l : L) (ps : List (ℤ × Option L)) (addr : Address)
      → AccessGuards al ps
      → present al ≡ some l
      → address_in_access_list lists al addr ≡ ok (lists.contains_address l addr)
  unfolding address_in_access_list
  address_in_present al l ps addr g e = simp (g.pointed, top_list al g.top l g.pointed e)
