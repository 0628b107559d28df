-- ===== src/Journal/Marks.antt =====
-- The restore points of a journal that takes the size of its stack for a snapshot's id: the first so
-- many entries are those that stood at the snapshot.
use molaris.Prelude.{
  ℕ, suc, ◌≤◌, ◌≡◌, refl, sym, ◌∙◌, subst, List, [], ◌∷◌, ◌++◌, arith, length, get_or, take,
  length-append, length-take, take_all, take-append, take-take, ℤ, pos, ok,
}
use molaris.Stack
use molaris.Stack.{Stack, items}
use molaris.Stack.Items.{Holds, push-Holds, pop_to_size-Holds, new-Holds}

module _ {A : Type 0} where
  abbrev pub Marks : ℕ → List A → List (ℤ × List A) → Type 0
  Marks bound xs [] = Unit {0}
  Marks bound xs ((id, v) ∷ ps) =
      (n : ℕ) × (id ≡ pos n) × (n ≤ bound) × (take n xs ≡ v) × Marks n xs ps

  pub Marks-append :
      (bound : ℕ) (xs ys : List A) (ps : List (ℤ × List A))
      → bound ≤ length xs
      → Marks bound xs ps
      → Marks bound (xs ++ ys) ps
  Marks-append bound xs ys [] l m = tt
  Marks-append bound xs ys ((id, v) ∷ ps) l (n, e, le, t, m) =
      (n, e, le, take-append n xs ys (omega arith) ∙ t, Marks-append n xs ys ps (omega arith) m)

  pub Marks-take :
      (bound k : ℕ) (xs : List A) (ps : List (ℤ × List A))
      → bound ≤ k
      → Marks bound xs ps
      → Marks bound (take k xs) ps
  Marks-take bound k xs [] l m = tt
  Marks-take bound k xs ((id, v) ∷ ps) l (n, e, le, t, m) =
      (n, e, le, take-take n k xs (omega arith) ∙ t, Marks-take n k xs ps (omega arith) m)

  pub Marks-weaken :
      (n bound : ℕ) (xs : List A) (ps : List (ℤ × List A))
      → n ≤ bound
      → Marks n xs ps
      → Marks bound xs ps
  Marks-weaken n bound xs [] l m = tt
  Marks-weaken n bound xs ((id, v) ∷ ps) l (k, e, le, t, m) = (k, e, omega arith, t, m)

  pub record StackGuards (s : Stack A) (ps : List (ℤ × List A)) : Type 0 where
    pub sound : Stack.IsValid s
    pub marks : Marks (length (items s)) (items s) ps

  pub holds : (s : Stack A) → Stack.IsValid s → Holds s (items s)
  holds s v = record { valid = v; entries = refl }

  pub StackGuards-of_Holds :
      (s : Stack A) (xs : List A) (ps : List (ℤ × List A))
      → Holds s xs
      → Marks (length xs) xs ps
      → StackGuards s ps
  StackGuards-of_Holds s xs ps h m = record {
    sound = h.valid;
    marks = subst (λ ys. Marks (length ys) ys ps) (sym h.entries) m;
  }

  pub StackGuards-new : (zero_value : A) (n : ℕ) → 1 ≤ n → StackGuards (Stack.new zero_value n) []
  StackGuards-new zero_value n l =
      StackGuards-of_Holds (Stack.new zero_value n) [] [] (new-Holds zero_value n l) tt

  pub forget-StackGuards :
      (s : Stack A) (p : ℤ × List A) (ps : List (ℤ × List A))
      → StackGuards s (p ∷ ps)
      → StackGuards s ps
  forget-StackGuards s (id, v) ps g =
      let (n, e, le, t, m) = g.marks in
      record { sound = g.sound; marks = Marks-weaken n (length (items s)) (items s) ps le m }

  pub size-length-items : (s : Stack A) → Stack.IsValid s → s.size ≡ length (items s)
  size-length-items s v =
      let f = v.filled in let w = v.within in omega (arith, length-take s.size s.buf)

  -- Taking the size as an id makes the present entries a restore point.
  pub snapshot-StackGuards :
      (s : Stack A) (ps : List (ℤ × List A))
      → StackGuards s ps
      → StackGuards s ((pos s.size, items s) ∷ ps)
  snapshot-StackGuards s ps g = record {
    sound = g.sound;
    marks =
        let e = size-length-items s g.sound in
        (
          s.size,
          refl,
          omega (arith, e),
          take_all s.size (items s) (omega (arith, e)),
          subst (λ b. Marks b (items s) ps) (sym e) g.marks,
        );
  }

  -- A push keeps every restore point.
  pub push-StackGuards :
      (zero_value : A) (s : Stack A) (x : A) (ps : List (ℤ × List A))
      → StackGuards s ps
      → (s' : Stack A) × (n : ℕ) × (Stack.push zero_value s x ≡ ok (s', n))
        × (items s' ≡ items s ++ x ∷ [])
        × StackGuards s' ps
  push-StackGuards zero_value s x ps g =
      let (s', e, h) = push-Holds zero_value s (items s) x (holds s g.sound) in
      (
        s',
        suc (length (items s)),
        e,
        h.entries,
        StackGuards-of_Holds s' (items s ++ x ∷ []) ps h (
            Marks-weaken (length (items s)) _ (items s ++ x ∷ []) ps
              (omega (arith, length-append (items s) (x ∷ [])))
              (Marks-append _ (items s) (x ∷ []) ps (omega arith) g.marks)),
      )

  -- Popping to the newest id brings the entries back that stood there, and keeps the older points.
  pub revert-StackGuards :
      (zero_value : A) (s : Stack A) (id : ℤ) (v : List A) (ps : List (ℤ × List A))
      → StackGuards s ((id, v) ∷ ps)
      → (s' : Stack A) × (x : A) × (Stack.pop_to_size zero_value s id ≡ ok (s', x))
        × (items s' ≡ v)
        × StackGuards s' ps
  revert-StackGuards zero_value s id v ps g =
      let (n, ei, le, t, m) = g.marks in
      let (s', e, h) = pop_to_size-Holds zero_value s (items s) n (holds s g.sound) le in
      (
        s',
        get_or (items s) n zero_value,
        rw ei e,
        h.entries ∙ t,
        StackGuards-of_Holds s' (take n (items s)) ps h (
            subst (λ b. Marks b (take n (items s)) ps)
              (sym (omega (arith, length-take n (items s))))
              (Marks-take n n (items s) ps (omega arith) m)),
      )
