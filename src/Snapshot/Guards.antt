-- ===== src/Snapshot/Guards.antt =====
-- The controller keeps the contract of a `Controllable` if each registered object does: so it may be
-- registered with another controller, as the state plugin is.
use molaris.Prelude.{
  ℕ, ◌≤◌, ◌<◌, ◌≡◌, refl, sym, ap, ◌∙◌, subst, some, List, [], ◌∷◌, ◌++◌, append_assoc, arith,
  length, get_elem?, get_or, take, length-append, length-take, get_elem?-take, get_elem?-eq-get_or,
  get_elem?-append_left, get_elem?-append_length, ℤ, pos, ok, Eq, AreDistinct, keys,
  HasDistinctKeys, lookup-middle, insert-middle, keys-append,
}
use molaris.Stack.Items.{Holds, push-Holds, pop_to_size-Holds}
use molaris.Registry
use molaris.Snapshot.{
  Controllable, Controller, snapshot_items, snapshot, revert_items, revert_to_snapshot,
}
use molaris.Snapshot.Interface.{Restorable}

module _ {K T : Type 0} ⦃e : Eq K⦄ (methods : Controllable K T) (law : Restorable methods) where
  abbrev pub Views : Type 0
  Views = List (K × law.View)

  abbrev pub Revision : Type 0
  Revision = List (K × ℤ)

  abbrev pub views : List (K × T) → List (K × law.View)
  views [] = []
  views ((k, t) ∷ items) = (k, law.view t) ∷ views items

  abbrev pub zip_cons : K → List (ℤ × law.View) → List (Revision × Views) → List (Revision × Views)
  zip_cons k [] rest = []
  zip_cons k (p ∷ ps) [] = []
  zip_cons k ((id, v) ∷ ps) ((r, w) ∷ rest) = ((k, id) ∷ r, (k, v) ∷ w) ∷ zip_cons k ps rest

  abbrev AllEmpty : List (Revision × Views) → Type 0
  AllEmpty [] = Unit {0}
  AllEmpty ((r, w) ∷ hs) = (r ≡ []) × (w ≡ []) × AllEmpty hs

  -- Every object guards its own column of the revisions.
  abbrev pub ItemGuards : List (K × T) → List (List (K × ℤ) × List (K × law.View)) → Type 0
  ItemGuards [] hs = AllEmpty hs
  ItemGuards ((k, t) ∷ items) hs =
      (column : List (ℤ × law.View)) × (rest : List (Revision × Views)) × (hs
        ≡ zip_cons k column rest)
      × law.Guards t column
      × ItemGuards items rest

  -- The journal holds the revision of every restore point, below `bound`, newest first.
  abbrev pub Marked :
      ℕ
      → List (List (K × ℤ))
      → List (ℤ × List (K × law.View))
      → List (List (K × ℤ) × List (K × law.View))
      → Type 0
  Marked bound xs [] hs = Unit {0}
  Marked bound xs (p ∷ ps) [] = ⊥
  Marked bound xs ((id, v) ∷ ps) ((r, w) ∷ hs) =
      (w ≡ v) × (n : ℕ) × (id ≡ pos n) × (n < bound) × (get_elem? xs n ≡ some r) × Marked n xs ps hs

  pub record ControllerGuards (c : Controller K T) (ps : List (ℤ × List (K × law.View)))
      : Type 0 where
    pub distinct : HasDistinctKeys c.items
    pub revisions : List (List (K × ℤ))
    pub journaled : Holds c.journal revisions
    pub history : List (List (K × ℤ) × List (K × law.View))
    pub marked : Marked (length revisions) revisions ps history
    pub guarded : ItemGuards c.items history

  snapshot_items-Guards :
      (items : List (K × T)) (hs : List (Revision × Views))
      → ItemGuards items hs
      → (items' : List (K × T)) × (r : Revision) × (snapshot_items methods items ≡ ok (items', r))
        × (keys items' ≡ keys items)
        × (views items' ≡ views items)
        × ItemGuards items' ((r, views items) ∷ hs)
  unfolding snapshot_items
  snapshot_items-Guards [] hs g = ([], [], refl, refl, refl, (refl, refl, g))
  snapshot_items-Guards ((k, t) ∷ items) hs (column, rest, eq, g, gs) =
      let (t', id, e1, v1, g') = law.snapshot-Guards t column g in
      let (items', r, e2, k2, v2, gs') = snapshot_items-Guards items rest gs in
      (
        (k, t') ∷ items',
        (k, id) ∷ r,
        rw (e1, e2) refl,
        ap (k ∷◌) k2,
        rw (v1, v2) refl,
        (
          (id, law.view t) ∷ column,
          (r, views items) ∷ rest,
          ap (((k, id) ∷ r, (k, law.view t) ∷ views items) ∷◌) eq,
          g',
          gs',
        ),
      )

  revert_items-Guards :
      (done items : List (K × T)) (r : Revision) (w : Views) (hs : List (Revision × Views))
      → HasDistinctKeys (done ++ items)
      → ItemGuards items ((r, w) ∷ hs)
      → (items' : List (K × T)) × (revert_items methods r (done ++ items) ≡ ok (done ++ items'))
        × (keys items' ≡ keys items)
        × (views items' ≡ w)
        × ItemGuards items' hs
  unfolding revert_items Registry.get
  revert_items-Guards done [] r w hs d (er, ew, g) = ([], rw er refl, refl, sym ew, g)
  revert_items-Guards done ((k, t) ∷ items) r w hs d ([], rest, eq, g, gs) = absurd (cc)
  revert_items-Guards done ((k, t) ∷ items) r w hs d (p ∷ ps, [], eq, g, gs) = absurd (cc)
  revert_items-Guards done ((k, t) ∷ items) r w hs d ((id, v) ∷ ps, (r', w') ∷ rest, eq, g, gs) =
      let (t', e1, v1, g') = law.revert-Guards t id v ps g in
      let (items', e2, k2, v2, gs') =
        revert_items-Guards (done ++ (k, t') ∷ []) items r' w' rest (moved t') gs in
      let er : r ≡ (k, id) ∷ r' = cc in
      let ew : w ≡ (k, v) ∷ w' = cc in
      let eh : hs ≡ zip_cons k ps rest = cc in
      (
        (k, t') ∷ items',
        rw (er, revert_items, found, e1, insert-middle k t t' done items d)
            (simp append_assoc at e2),
        ap (k ∷◌) k2,
        rw (ew, v1, v2) refl,
        (ps, rest, eh, g', gs'),
      )
    where
      found : Registry.get (done ++ (k, t) ∷ items) k ≡ some t
      found = lookup-middle k t done items d

      moved : (t' : T) → HasDistinctKeys ((done ++ (k, t') ∷ []) ++ items)
      moved t' = rw append_assoc (
          subst AreDistinct
            (keys-append done ((k, t) ∷ items) ∙ sym (keys-append done ((k, t') ∷ items))) d)

  Marked-append :
      (bound : ℕ) (xs : List Revision) (r : Revision) (ps : List (ℤ × Views))
      (hs : List (Revision × Views))
      → bound ≤ length xs
      → Marked bound xs ps hs
      → Marked bound (xs ++ r ∷ []) ps hs
  Marked-append bound xs r [] hs l m = tt
  Marked-append bound xs r (p ∷ ps) [] l m = m
  Marked-append bound xs r ((id, v) ∷ ps) ((r', w) ∷ hs) l (ew, n, ei, lt, eg, m) = (
    ew,
    n,
    ei,
    lt,
    get_elem?-append_left xs (r ∷ []) n (omega arith) ∙ eg,
    Marked-append n xs r ps hs (omega arith) m,
  )

  Marked-take :
      (bound k : ℕ) (xs : List Revision) (ps : List (ℤ × Views)) (hs : List (Revision × Views))
      → bound ≤ k
      → Marked bound xs ps hs
      → Marked bound (take k xs) ps hs
  Marked-take bound k xs [] hs l m = tt
  Marked-take bound k xs (p ∷ ps) [] l m = m
  Marked-take bound k xs ((id, v) ∷ ps) ((r, w) ∷ hs) l (ew, n, ei, lt, eg, m) = (
    ew,
    n,
    ei,
    lt,
    get_elem?-take k n xs (omega arith) ∙ eg,
    Marked-take n k xs ps hs (omega arith) m,
  )

  -- Forgetting the newest restore point drops the newest column entry of every object.
  forget_items :
      (items : List (K × T)) (h : Revision × Views) (hs : List (Revision × Views))
      → ItemGuards items (h ∷ hs)
      → ItemGuards items hs
  forget_items [] h hs (er, ew, g) = g
  forget_items ((k, t) ∷ items) h hs ([], rest, eq, g, gs) = absurd (cc)
  forget_items ((k, t) ∷ items) h hs (p ∷ ps, [], eq, g, gs) = absurd (cc)
  forget_items ((k, t) ∷ items) h hs ((id, v) ∷ ps, (r, w) ∷ rest, eq, g, gs) =
      (ps, rest, cc, law.forget t (id, v) ps g, forget_items items (r, w) rest gs)

  Marked-weaken :
      (n bound : ℕ) (xs : List Revision) (ps : List (ℤ × Views)) (hs : List (Revision × Views))
      → n ≤ bound
      → Marked n xs ps hs
      → Marked bound xs ps hs
  Marked-weaken n bound xs [] hs l m = tt
  Marked-weaken n bound xs (p ∷ ps) [] l m = m
  Marked-weaken n bound xs ((id, v) ∷ ps) ((r, w) ∷ hs) l (ew, n', ei, lt, eg, m) =
      (ew, n', ei, omega arith, eg, m)

  -- A snapshot of the controller succeeds, shows the same, and can be returned to.
  pub snapshot-ControllerGuards :
      (c : Controller K T) (ps : List (ℤ × List (K × law.View)))
      → ControllerGuards c ps
      → (c' : Controller K T) × (id : ℤ) × (snapshot methods c ≡ ok (c', id))
        × (views c'.items ≡ views c.items)
        × ControllerGuards c' ((id, views c.items) ∷ ps)
  unfolding snapshot
  snapshot-ControllerGuards c ps g =
      let (items', r, e1, k1, v1, gs) = snapshot_items-Guards c.items g.history g.guarded in
      let (j, e2, h) = push-Holds [] c.journal g.revisions r g.journaled in
      (
        record { items = items'; journal = j },
        pos (length g.revisions),
        rw (e1, e2) (ap (λ i. ok (record { items = items'; journal = j }, i)) (ground arith)),
        v1,
        record {
          distinct = subst AreDistinct (sym k1) g.distinct;
          revisions = g.revisions ++ r ∷ [];
          journaled = h;
          history = (r, views c.items) ∷ g.history;
          marked = (
            refl,
            length g.revisions,
            refl,
            omega (arith, length-append g.revisions (r ∷ [])),
            get_elem?-append_length g.revisions r,
            Marked-append _ g.revisions r ps g.history (omega arith) g.marked,
          );
          guarded = gs;
        },
      )

  revert-Marked :
      (c : Controller K T) (id : ℤ) (w : Views) (ps : List (ℤ × Views)) (xs : List Revision)
      (hs : List (Revision × Views))
      → HasDistinctKeys c.items
      → Holds c.journal xs
      → Marked (length xs) xs ((id, w) ∷ ps) hs
      → ItemGuards c.items hs
      → (c' : Controller K T) × (revert_to_snapshot methods c id ≡ ok c')
        × (views c'.items ≡ w)
        × ControllerGuards c' ps
  unfolding revert_to_snapshot
  revert-Marked c id w ps xs [] d h m gs = absurd m
  revert-Marked c id w ps xs ((r, w') ∷ hs) d h (ew, n, ei, lt, eg, m) gs =
      let (j, e1, h') = pop_to_size-Holds [] c.journal xs n h (omega arith) in
      let (items', e2, k2, v2, gs') = revert_items-Guards [] c.items r w' hs d gs in
      let er : get_or xs n [] ≡ r = cc (get_elem?-eq-get_or xs n [] lt) in
      (
        record { items = items'; journal = j },
        rw (ei, e1, er, e2) refl,
        v2 ∙ ew,
        record {
          distinct = subst AreDistinct (sym k2) d;
          revisions = take n xs;
          journaled = h';
          history = hs;
          marked =
              subst (λ b. Marked b (take n xs) ps hs) (sym (omega (arith, length-take n xs)))
                (Marked-take n n xs ps hs (omega arith) m);
          guarded = gs';
        },
      )

  -- A revert to the newest restore point succeeds and brings every object's view back.
  pub revert-ControllerGuards :
      (c : Controller K T) (id : ℤ) (w : List (K × law.View)) (ps : List (ℤ × List (K × law.View)))
      → ControllerGuards c ((id, w) ∷ ps)
      → (c' : Controller K T) × (revert_to_snapshot methods c id ≡ ok c')
        × (views c'.items ≡ w)
        × ControllerGuards c' ps
  revert-ControllerGuards c id w ps g =
      revert-Marked c id w ps g.revisions g.history g.distinct g.journaled g.marked g.guarded

  forget-Marked :
      (c : Controller K T) (p : ℤ × Views) (ps : List (ℤ × Views)) (xs : List Revision)
      (hs : List (Revision × Views))
      → HasDistinctKeys c.items
      → Holds c.journal xs
      → Marked (length xs) xs (p ∷ ps) hs
      → ItemGuards c.items hs
      → ControllerGuards c ps
  forget-Marked c p ps xs [] d h m gs = absurd m
  forget-Marked c (id, v) ps xs ((r, w) ∷ hs) d h (ew, n, ei, lt, eg, m) gs = record {
    distinct = d;
    revisions = xs;
    journaled = h;
    history = hs;
    marked = Marked-weaken n (length xs) xs ps hs (omega arith) m;
    guarded = forget_items c.items (r, w) hs gs;
  }

  -- A restore point that is not needed any more can be dropped, also when newer than the others.
  pub forget-ControllerGuards :
      (c : Controller K T) (p : ℤ × List (K × law.View)) (ps : List (ℤ × List (K × law.View)))
      → ControllerGuards c (p ∷ ps)
      → ControllerGuards c ps
  forget-ControllerGuards c p ps g =
      forget-Marked c p ps g.revisions g.history g.distinct g.journaled g.marked g.guarded
