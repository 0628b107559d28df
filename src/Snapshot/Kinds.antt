-- ===== src/Snapshot/Kinds.antt =====
-- A controller's objects are of several kinds: the restore points of one kind as those of an object.
use molaris.Prelude.{◌≡◌, subst, List, [], ◌∷◌, map, ℤ}

-- The restore points of one kind, as those of an object.
module _ {V W : Type 0} (kind : V → W) (G : List (ℤ × V) → Type 0) where
  abbrev pub Lifted : List (ℤ × W) → Type 0
  Lifted ps = (qs : List (ℤ × V)) × (ps ≡ map (λ q. (q.0, kind q.1)) qs) × G qs

  pub forget-Lifted :
      (p : ℤ × W) (ps : List (ℤ × W))
      → ((q : ℤ × V) (qs : List (ℤ × V)) → G (q ∷ qs) → G qs)
      → Lifted (p ∷ ps)
      → Lifted ps
  forget-Lifted p ps forget ([], e, g) = absurd (cc)
  forget-Lifted p ps forget (q ∷ qs, e, g) = (qs, cc, forget q qs g)

  pub newest-Lifted :
      (id : ℤ) (w : W) (ps : List (ℤ × W))
      → Lifted ((id, w) ∷ ps)
      → (v : V) × (qs : List (ℤ × V)) × (w ≡ kind v)
        × (ps ≡ map (λ q. (q.0, kind q.1)) qs)
        × G ((id, v) ∷ qs)
  newest-Lifted id w ps ([], e, g) = absurd (cc)
  newest-Lifted id w ps ((id', v) ∷ qs, e, g) =
      let same : id' ≡ id = cc in (v, qs, cc, cc, subst (λ i. G ((i, v) ∷ qs)) same g)
