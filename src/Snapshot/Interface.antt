-- ===== src/Snapshot/Interface.antt =====
-- The contract of a `Controllable`, in terms of what it shows (`View`) and of the restore points that
-- it still guards, newest first: the id of each, and the view that a revert to that id brings back.
use molaris.Prelude.{◌≡◌, List, ◌∷◌, ℤ, ok}
use molaris.Snapshot.{Controllable}

pub record Restorable {K T : Type 0} (methods : Controllable K T) : Type 1 where
  pub View : Type 0
  pub view : T → View
  pub Guards : T → List (ℤ × View) → Type 0
  pub forget : (t : T) (p : ℤ × View) (ps : List (ℤ × View)) → Guards t (p ∷ ps) → Guards t ps
  pub snapshot-Guards :
      (t : T) (ps : List (ℤ × View))
      → Guards t ps
      → (t' : T) × (id : ℤ) × (methods.snapshot t ≡ ok (t', id))
        × (view t' ≡ view t)
        × Guards t' ((id, view t) ∷ ps)
  pub revert-Guards :
      (t : T) (id : ℤ) (v : View) (ps : List (ℤ × View))
      → Guards t ((id, v) ∷ ps)
      → (t' : T) × (methods.revert_to_snapshot t id ≡ ok t') × (view t' ≡ v) × Guards t' ps
