-- ===== src/Store/Maps.antt =====
-- The maps of the multi-store's journal as layers: what the store's restore points are, and that a
-- change of the present map keeps them.
use molaris.Prelude.{
  ℕ, zero, suc, ◌≡◌, refl, sym, ap, ◌∙◌, subst, ◌⊎◌, inl, inr, Option, none, some, List, [], ◌∷◌,
  ◌++◌, take, last_or, last_or-append, ℤ, ok,
}
use molaris.Stack
use molaris.Stack.{Stack, items}
use molaris.Stack.Items.{peek-Holds}
use molaris.Stack.Layers.{
  LayerGuards, LayerGuards-empty, forget-LayerGuards, set-LayerGuards, last-cases,
}
use molaris.Store.{CacheKv, MapMultiStore, Store, or_root, put_map}
use molaris.Store.Views.{StoreView, maps_view}

-- No snapshot is the nil map.
abbrev pub AreMaps : {M : Type 0} → List (Option M) → Type 0
AreMaps [] = Unit {0}
AreMaps (none ∷ xs) = ⊥
AreMaps (some cms ∷ xs) = AreMaps xs

pub AreMaps-append :
    {M : Type 0} (xs : List (Option M)) (cms : M) → AreMaps xs → AreMaps (xs ++ some cms ∷ [])
AreMaps-append [] cms h = tt
AreMaps-append (none ∷ xs) cms h = h
AreMaps-append (some c ∷ xs) cms h = AreMaps-append xs cms h

pub AreMaps-set :
    {M : Type 0} (xs : List (Option M)) (o : Option M) (cms : M)
    → AreMaps (xs ++ o ∷ [])
    → AreMaps (xs ++ some cms ∷ [])
AreMaps-set [] o cms h = tt
AreMaps-set (none ∷ xs) o cms h = h
AreMaps-set (some c ∷ xs) o cms h = AreMaps-set xs o cms h

pub AreMaps-take : {M : Type 0} (n : ℕ) (xs : List (Option M)) → AreMaps xs → AreMaps (take n xs)
AreMaps-take zero xs h = tt
AreMaps-take (suc n) [] h = tt
AreMaps-take (suc n) (none ∷ xs) h = h
AreMaps-take (suc n) (some c ∷ xs) h = AreMaps-take n xs h

pub last-AreMaps :
    {M : Type 0} (xs : List (Option M)) (o : Option M)
    → AreMaps (xs ++ o ∷ [])
    → (cms : M) × (o ≡ some cms)
last-AreMaps [] none h = absurd h
last-AreMaps [] (some cms) h = (cms, refl)
last-AreMaps (none ∷ xs) o h = absurd h
last-AreMaps (some c ∷ xs) o h = last-AreMaps xs o h

module _ {S : Type 0} (kv : CacheKv S) where
  -- A journal of real maps, with its restore points.
  pub record StoreGuards (s : Store S) (ps : List (ℤ × StoreView kv)) : Type 0 where
    pub maps : List (Option (MapMultiStore S))
    pub are_maps : AreMaps maps
    pub layers : LayerGuards (maps_view kv s.committed s.root) s.journal maps ps

  -- What a store with the maps `xs` shows.
  abbrev pub view_with : Store S → List (Option (MapMultiStore S)) → StoreView kv
  view_with s xs = maps_view kv s.committed s.root xs

  abbrev pub store_view : Store S → StoreView kv
  store_view s = view_with s (items s.journal)

  -- The view in terms of the maps that are guarded.
  pub store_view-maps :
      (s : Store S) (ps : List (ℤ × StoreView kv)) (g : StoreGuards s ps)
      → store_view s ≡ view_with s g.maps
  store_view-maps s ps g = ap (view_with s) g.layers.held.entries

  pub peek-maps :
      (s : Store S) (ps : List (ℤ × StoreView kv)) (g : StoreGuards s ps)
      → Stack.peek none s.journal ≡ ok (last_or g.maps none)
  peek-maps s ps g = peek-Holds none s.journal g.maps g.layers.held

  pub forget-StoreGuards :
      (s : Store S) (p : ℤ × StoreView kv) (ps : List (ℤ × StoreView kv))
      → StoreGuards s (p ∷ ps)
      → StoreGuards s ps
  forget-StoreGuards s p ps g = record {
    maps = g.maps;
    are_maps = g.are_maps;
    layers = forget-LayerGuards (view_with s) s.journal g.maps p ps g.layers;
  }

  -- What is known of the store once `cms` stands in the place of the map that `Peek` returned.
  abbrev pub Placed :
      Store S → List (ℤ × StoreView kv) → MapMultiStore S → Option (MapMultiStore S) → Type 0
  Placed s ps cms o =
      let s' = put_map kv s o cms in
      (g : StoreGuards s' ps) × (or_root s'.root (last_or g.maps none) ≡ cms)
      × (s'.committed ≡ s.committed)
      × (s'.read_only ≡ s.read_only)

  put_root :
      (s : Store S) (ps : List (ℤ × StoreView kv)) (cms : MapMultiStore S)
      → LayerGuards (view_with s) s.journal [] ps
      → Placed s ps cms none
  put_root s ps cms layers =
      let empty = LayerGuards-empty (view_with s) s.journal ps layers in
      let s' : Store S = record s { root = cms } in
      (
        record {
          maps = [];
          are_maps = tt;
          layers =
              subst (λ qs. LayerGuards (view_with s') s.journal [] qs) (sym empty)
                (record { held = layers.held; marks = tt });
        },
        refl,
        refl,
        refl,
      )

  put_top :
      (s : Store S) (ps : List (ℤ × StoreView kv)) (cms old : MapMultiStore S)
      (below : List (Option (MapMultiStore S)))
      → AreMaps (below ++ some old ∷ [])
      → LayerGuards (view_with s) s.journal (below ++ some old ∷ []) ps
      → Placed s ps cms (some old)
  put_top s ps cms old below are layers = (
    record {
      maps = below ++ some cms ∷ [];
      are_maps = AreMaps-set below (some old) cms are;
      layers = set-LayerGuards (view_with s) none s.journal below (some old) (some cms) ps layers;
    },
    ap (or_root s.root) (last_or-append below (some cms) none),
    refl,
    refl,
  )

  -- A new map in the place of the present one keeps the restore points.
  pub put_map-StoreGuards :
      (s : Store S) (cms : MapMultiStore S) (ps : List (ℤ × StoreView kv)) (g : StoreGuards s ps)
      → Placed s ps cms (last_or g.maps none)
  put_map-StoreGuards s cms ps g = go g.maps g.are_maps g.layers (last-cases g.maps)
    where
      go :
          (xs : List (Option (MapMultiStore S)))
          → AreMaps xs
          → LayerGuards (view_with s) s.journal xs ps
          → (xs ≡ [])
            ⊎ ((below : List (Option (MapMultiStore S))) × (top : Option (MapMultiStore S)) × (xs
                  ≡ below ++ top ∷ []))
          → Placed s ps cms (last_or xs none)
      go xs are layers (inl e) =
          subst (Placed s ps cms) (ap (λ ys. last_or ys none) (sym e))
            (put_root s ps cms (subst (λ ys. LayerGuards (view_with s) s.journal ys ps) e layers))
      go xs are layers (inr (below, top, e)) =
          let (old, is) = last-AreMaps below top (subst AreMaps e are) in
          let e' : xs ≡ below ++ some old ∷ [] = e ∙ ap (λ o. below ++ o ∷ []) is in
          subst (Placed s ps cms)
            (sym (ap (λ ys. last_or ys none) e' ∙ last_or-append below (some old) none))
            (put_top s ps cms old below (subst AreMaps e' are)
              (subst (λ ys. LayerGuards (view_with s) s.journal ys ps) e' layers))
