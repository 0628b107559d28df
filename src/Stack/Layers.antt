-- ===== src/Stack/Layers.antt =====
-- The restore points of a journal whose entries are whole layers: a snapshot pushes a layer, and only
-- the newest layer is changed, so that the layers below a restore point stand as they were. `view` is
-- what the layers show together.
use molaris.Prelude.{
  ℕ, suc, ◌-◌, ◌≤◌, ◌<◌, ◌≡◌, refl, sym, ap, ◌∙◌, subst, ◌⊎◌, inl, inr, List, [], ◌∷◌, ◌++◌, arith,
  length, get_or, set, take, last_or, length-append, length-take, take_all, take-append, take-take,
  take-length_pred, ℤ, pos, ok,
}
use molaris.Stack
use molaris.Stack.{Stack, items}
use molaris.Stack.Items.{Holds, push-Holds, pop_to_size-Holds, set-Holds, size-eq-length}

-- A list is empty or has a last entry.
pub last-cases {ℓ} :
    {A : Type ℓ} (xs : List A)
    → (xs ≡ []) ⊎ ((below : List A) × (top : A) × (xs ≡ below ++ top ∷ []))
last-cases [] = inl refl
last-cases (x ∷ xs) =
    inr (take (length xs) (x ∷ xs), last_or (x ∷ xs) x, sym (take-length_pred x xs x))

module _ {A V : Type 0} (view : List A → V) where
  abbrev pub LayerMarks : ℕ → List A → List (ℤ × V) → Type 0
  LayerMarks bound xs [] = Unit {0}
  LayerMarks bound xs ((id, v) ∷ ps) =
      (n : ℕ) × (id ≡ pos n) × (n < bound) × (view (take n xs) ≡ v) × LayerMarks n xs ps

  LayerMarks-same :
      (bound k : ℕ) (xs ys : List A) (ps : List (ℤ × V))
      → bound ≤ suc k
      → ((n : ℕ) → n ≤ k → take n xs ≡ take n ys)
      → LayerMarks bound xs ps
      → LayerMarks bound ys ps
  LayerMarks-same bound k xs ys [] l same m = tt
  LayerMarks-same bound k xs ys ((id, v) ∷ ps) l same (n, e, lt, t, m) = (
    n,
    e,
    lt,
    ap view (sym (same n (omega arith))) ∙ t,
    LayerMarks-same n k xs ys ps (omega arith) same m,
  )

  LayerMarks-weaken :
      (n bound : ℕ) (xs : List A) (ps : List (ℤ × V))
      → n ≤ bound
      → LayerMarks n xs ps
      → LayerMarks bound xs ps
  LayerMarks-weaken n bound xs [] l m = tt
  LayerMarks-weaken n bound xs ((id, v) ∷ ps) l (k, e, lt, t, m) = (k, e, omega arith, t, m)

  -- A stack of the layers `xs`, with its restore points.
  pub record LayerGuards (s : Stack A) (xs : List A) (ps : List (ℤ × V)) : Type 0 where
    pub held : Holds s xs
    pub marks : LayerMarks (length xs) xs ps

  -- A stack without layers has no restore points.
  pub LayerGuards-empty : (s : Stack A) (ps : List (ℤ × V)) → LayerGuards s [] ps → ps ≡ []
  LayerGuards-empty s [] g = refl
  LayerGuards-empty s ((id, v) ∷ ps) g =
      let (n, e, lt, t, m) = g.marks in absurd (omega (arith, lt))

  pub forget-LayerGuards :
      (s : Stack A) (xs : List A) (p : ℤ × V) (ps : List (ℤ × V))
      → LayerGuards s xs (p ∷ ps)
      → LayerGuards s xs ps
  forget-LayerGuards s xs (id, v) ps g =
      let (n, e, lt, t, m) = g.marks in
      record { held = g.held; marks = LayerMarks-weaken n (length xs) xs ps (omega arith) m }

  -- Pushing a layer makes a restore point of what was there.
  pub push-LayerGuards :
      (zero_value : A) (s : Stack A) (xs : List A) (x : A) (ps : List (ℤ × V))
      → LayerGuards s xs ps
      → (s' : Stack A) × (Stack.push zero_value s x ≡ ok (s', suc (length xs)))
        × LayerGuards s' (xs ++ x ∷ []) ((pos (length xs), view xs) ∷ ps)
  push-LayerGuards zero_value s xs x ps g =
      let (s', e, h) = push-Holds zero_value s xs x g.held in
      (
        s',
        e,
        record {
          held = h;
          marks = (
            length xs,
            refl,
            omega (arith, length-append xs (x ∷ [])),
            ap view (
                take-append (length xs) xs (x ∷ []) (omega arith)
                ∙ take_all (length xs) xs (omega arith)),
            LayerMarks-same (length xs) (length xs) xs (xs ++ x ∷ []) ps (omega arith)
                (λ n l. sym (take-append n xs (x ∷ []) l)) g.marks,
          );
        },
      )

  -- Popping to the newest restore point brings back what was there.
  pub revert-LayerGuards :
      (zero_value : A) (s : Stack A) (xs : List A) (id : ℤ) (v : V) (ps : List (ℤ × V))
      → LayerGuards s xs ((id, v) ∷ ps)
      → (s' : Stack A) × (n : ℕ) × (x : A) × (Stack.pop_to_size zero_value s id ≡ ok (s', x))
        × (view (take n xs) ≡ v)
        × LayerGuards s' (take n xs) ps
  revert-LayerGuards zero_value s xs id v ps g =
      let (n, ei, lt, t, m) = g.marks in
      let (s', e, h) = pop_to_size-Holds zero_value s xs n g.held (omega arith) in
      (
        s',
        n,
        get_or xs n zero_value,
        rw ei e,
        t,
        record {
          held = h;
          marks =
              subst (λ b. LayerMarks b (take n xs) ps) (omega (arith, lt, length-take n xs))
                (LayerMarks-same n n xs (take n xs) ps (omega arith)
                  (λ k l. sym (take-take k n xs l)) m);
        },
      )

  -- A change of the newest layer keeps every restore point.
  pub set-LayerGuards :
      (zero_value : A) (s : Stack A) (below : List A) (top t : A) (ps : List (ℤ × V))
      → LayerGuards s (below ++ top ∷ []) ps
      → LayerGuards (record s { buf = set s.buf (s.size - 1) t }) (below ++ t ∷ []) ps
  set-LayerGuards zero_value s below top t ps g =
      let size : length (below ++ top ∷ []) ≡ suc (length below) =
        omega (arith, length-append below (top ∷ [])) in
      let size' : length (below ++ t ∷ []) ≡ suc (length below) =
        omega (arith, length-append below (t ∷ [])) in
      let last : length below ≡ s.size - 1 = omega (arith, size-eq-length g.held, size) in
      record {
        held =
            subst (λ i. Holds (record s { buf = set s.buf i t }) (below ++ t ∷ [])) last
              (set-Holds zero_value s below [] top t g.held);
        marks =
            subst (λ b. LayerMarks b (below ++ t ∷ []) ps) (size ∙ sym size')
              (LayerMarks-same _ (length below) (below ++ top ∷ []) (below ++ t ∷ []) ps
                (omega (arith, size))
                (λ n l. take-append n below (top ∷ []) l ∙ sym (take-append n below (t ∷ []) l))
                g.marks);
      }
