-- ===== src/Stack/Items.antt =====
-- The stack refines a list: each operation in terms of the entries, oldest first.
use molaris.Prelude.{
  ℕ, suc, ◌+◌, ◌-◌, ◌≤◌, ◌<◌, ◌≡◌, refl, sym, ap, ◌∙◌, ◌≢◌, inl, inr, some, List, [], ◌∷◌, ◌++◌,
  arith, ◌==◌, lt→ltb, ge→ltb, lt→leb, ne→==, ==_iff, Bool-cases, length, get_elem?, get_or, set,
  take, last_or, length-append, length-set, length-take, take_all, take-take, take-suc-set,
  get_elem?-take, get_elem?-eq-get_or, last_or-eq-get_or, get_or_past, get_or-append_length,
  take-set, set-append_length, pos, out_of_bounds, ok, panics,
}
use molaris.Stack.{
  Stack, items, IsValid, new, expand_if_required, shrink_if_required, write, peek, peek_at, push,
  pop, pop_to_size,
}
use molaris.Stack.Resize.{
  new-IsValid, expand_if_required-IsValid, size-lt-expand_if_required, size-expand_if_required,
  items-expand_if_required, shrink_if_required-IsValid, size-shrink_if_required,
  items-shrink_if_required, get_elem?-shrink_if_required,
}

-- `s` is a sound representation of the entries `xs`.
pub record Holds {ℓ} {A : Type ℓ} (s : Stack A) (xs : List A) : Type ℓ where
  pub valid : IsValid s
  pub entries : items s ≡ xs

suc_sub_one : (n : ℕ) → suc n - 1 ≡ n
suc_sub_one n = omega arith

module _ {ℓ} {A : Type ℓ} where
  pub size-eq-length : {s : Stack A} {xs : List A} → Holds s xs → s.size ≡ length xs
  size-eq-length {s} {xs} h =
      let v = h.valid in
      omega (arith, length-take s.size s.buf, ap length h.entries, v.filled, v.within)

  pub Holds-items : (s : Stack A) → IsValid s → Holds s (items s)
  Holds-items s v = record { valid = v; entries = refl }

module _ {ℓ} {A : Type ℓ} (zero_value : A) where
  pub new-Holds : (n : ℕ) → 1 ≤ n → Holds (new zero_value n) []
  unfolding new
  new-Holds n h = record { valid = new-IsValid zero_value n h; entries = refl }

  write-ok :
      (buf : List A) (i : ℕ) (v : A) → i < length buf → write zero_value buf i v ≡ ok (set buf i v)
  unfolding write
  write-ok buf i v h = rw (lt→ltb i (length buf) h)

  -- A push returns, and appends one entry.
  pub push-Holds :
      (s : Stack A) (xs : List A) (x : A)
      → Holds s xs
      → (s' : Stack A) × (push zero_value s x ≡ ok (s', suc (length xs))) × Holds s' (xs ++ x ∷ [])
  unfolding push
  push-Holds s xs x h = (
    record e { buf = set e.buf e.size x; size = e.size + 1 },
    rw (write-ok e.buf e.size x room)
        (ap (λ n. ok (record e { buf = set e.buf e.size x; size = e.size + 1 }, n)) count),
    record {
      valid = record {
        within = omega (arith, v.filled, room);
        filled = length-set e.buf e.size x ∙ v.filled;
        grows = v.grows;
      };
      entries =
          ap (λ n. take n (set e.buf e.size x)) next
          ∙ take-suc-set e.size e.buf x room
          ∙ ap (λ ys. ys ++ x ∷ []) (items-expand_if_required zero_value s h.valid ∙ h.entries);
    },
  )
    where
      e : Stack A
      e = expand_if_required zero_value s

      room : e.size < length e.buf
      room = size-lt-expand_if_required zero_value s h.valid

      v : IsValid e
      v = expand_if_required-IsValid zero_value s h.valid

      next : e.size + 1 ≡ suc e.size
      next = omega arith

      count : e.size + 1 ≡ suc (length xs)
      count = omega (arith, size-expand_if_required zero_value s, size-eq-length h)

  -- The entry that `items` shows at an index is the one in the buffer.
  get_elem?-buf :
      (s : Stack A) (xs : List A) (i : ℕ)
      → Holds s xs
      → i < length xs
      → get_elem? s.buf i ≡ some (get_or xs i zero_value)
  get_elem?-buf s xs i h l =
      sym (get_elem?-take s.size i s.buf (omega (arith, size-eq-length h)))
      ∙ ap (λ ys. get_elem? ys i) h.entries
      ∙ get_elem?-eq-get_or xs i zero_value l

  -- A peek shows the newest entry, and the zero value of an empty stack.
  pub peek-Holds :
      (s : Stack A) (xs : List A) → Holds s xs → peek zero_value s ≡ ok (last_or xs zero_value)
  unfolding peek
  peek-Holds s [] h = let e : s.size ≡ 0 = size-eq-length h in simp e
  peek-Holds s (x ∷ xs) h =
      let e : s.size ≡ suc (length xs) = size-eq-length h in
      simp (
        e,
        ne→== (suc (length xs)) 0 (omega arith),
        suc_sub_one,
        get_elem?-buf s (x ∷ xs) (length xs) h (omega arith),
        last_or-eq-get_or xs x zero_value,
      )

  pub peek_at-Holds :
      (s : Stack A) (xs : List A) (i : ℕ)
      → Holds s xs
      → i < length xs
      → peek_at zero_value s (pos i) ≡ ok (get_or xs i zero_value)
  unfolding peek_at
  peek_at-Holds s xs i h l =
      rw (lt→leb i s.size (omega (arith, size-eq-length h)), get_elem?-buf s xs i h l)

  pub peek_at-middle :
      (s : Stack A) (done rest : List A) (x : A)
      → Holds s (done ++ x ∷ rest)
      → peek_at zero_value s (pos (length done)) ≡ ok x
  peek_at-middle s done rest x h =
      peek_at-Holds s (done ++ x ∷ rest) (length done) h
        (omega (arith, length-append done (x ∷ rest)))
      ∙ ap ok (get_or-append_length done x rest zero_value)

  -- A write through a pointer that the stack holds.
  pub set-Holds :
      (s : Stack A) (done rest : List A) (x v : A)
      → Holds s (done ++ x ∷ rest)
      → Holds (record s { buf = set s.buf (length done) v }) (done ++ v ∷ rest)
  set-Holds s done rest x v h = record {
    valid = record {
      within = h.valid.within;
      filled = length-set s.buf (length done) v ∙ h.valid.filled;
      grows = h.valid.grows;
    };
    entries =
        take-set s.size (length done) s.buf v
        ∙ ap (λ ys. set ys (length done) v) h.entries
        ∙ set-append_length done x v rest;
  }

  cut-IsValid : (s : Stack A) (n : ℕ) → IsValid s → n ≤ s.size → IsValid (record s { size = n })
  cut-IsValid s n v l = record { within = omega arith; filled = v.filled; grows = v.grows }

  -- Lowering the size and shrinking keeps the oldest entries.
  cut-Holds :
      (s : Stack A) (xs : List A) (n : ℕ)
      → Holds s xs
      → n ≤ s.size
      → Holds (shrink_if_required zero_value (record s { size = n })) (take n xs)
  cut-Holds s xs n h l = record {
    valid = shrink_if_required-IsValid zero_value _ (cut-IsValid s n h.valid l);
    entries =
        items-shrink_if_required zero_value _ (cut-IsValid s n h.valid l)
        ∙ sym (take-take n s.size s.buf l)
        ∙ ap (take n) h.entries;
  }

  -- A pop returns the newest entry and drops it.
  pub pop-Holds :
      (s : Stack A) (x : A) (xs : List A)
      → Holds s (x ∷ xs)
      → (s' : Stack A) × (pop zero_value s ≡ ok (s', last_or (x ∷ xs) zero_value))
        × Holds s' (take (length xs) (x ∷ xs))
  unfolding pop
  pop-Holds s x xs h = (
    c,
    simp (
      e,
      ne→== (suc (length xs)) 0 (omega arith),
      suc_sub_one,
      size-shrink_if_required zero_value,
      top,
      last_or-eq-get_or xs x zero_value,
    ),
    cut-Holds s (x ∷ xs) (length xs) h (omega (arith, e)),
  )
    where
      e : s.size ≡ suc (length xs)
      e = size-eq-length h

      c : Stack A
      c = shrink_if_required zero_value (record s { size = length xs })

      top : get_elem? c.buf (length xs) ≡ some (get_or (x ∷ xs) (length xs) zero_value)
      top =
          get_elem?-shrink_if_required zero_value (record s { size = length xs })
            (cut-IsValid s (length xs) h.valid (omega (arith, e)))
            (omega (arith, e, h.valid.within))
          ∙ get_elem?-buf s (x ∷ xs) (length xs) h (omega arith)

  pub pop_empty : (s : Stack A) → Holds s [] → pop zero_value s ≡ ok (s, zero_value)
  unfolding pop
  pop_empty s h = let e : s.size ≡ 0 = size-eq-length h in simp e

  -- Popping to a size keeps the oldest entries, and returns the oldest of those dropped.
  pub pop_to_size-Holds :
      (s : Stack A) (xs : List A) (n : ℕ)
      → Holds s xs
      → n ≤ length xs
      → (s' : Stack A) × (pop_to_size zero_value s (pos n) ≡ ok (s', get_or xs n zero_value))
        × Holds s' (take n xs)
  unfolding pop_to_size
  pop_to_size-Holds s xs n h l = elim (Bool-cases (n == s.size)) [
    | inl same ↦
        let m : n ≡ length xs = (==_iff n s.size).0 same ∙ size-eq-length h in
        (
          s,
          rw (ge→ltb s.size n below, same)
              (ap (λ v. ok (s, v)) (sym (get_or_past xs n zero_value (omega arith)))),
          rw (take_all n xs (omega arith)) h,
        )
    | inr less ↦
        let k : n ≢ s.size = (λ m. cc ((==_iff n s.size).1 m)) in
        (
          shrink_if_required zero_value (record s { size = n }),
          rw (
            ge→ltb s.size n below,
            less,
            get_elem?-buf s xs n h (omega (arith, size-eq-length h)),
          ),
          cut-Holds s xs n h below,
        )
  ]
    where
      below : n ≤ s.size
      below = omega (arith, size-eq-length h)

  -- Popping to more entries than there are panics.
  pub pop_to_size_out :
      (s : Stack A) (xs : List A) (n : ℕ)
      → Holds s xs
      → length xs < n
      → pop_to_size zero_value s (pos n) ≡ panics out_of_bounds
  unfolding pop_to_size
  pop_to_size_out s xs n h l = rw (lt→ltb s.size n (omega (arith, size-eq-length h)))
