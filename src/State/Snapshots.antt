-- ===== src/State/Snapshots.antt =====
-- The list of snapshots beside the list of their storages.
use klomang_network.Prelude.{
  ℕ, zero, suc, ◌+◌, ◌<◌, ◌≡◌, true, some, List, [], ◌∷◌, ◌++◌, length, get_elem?, take, arith,
  refl, ap,
}
use mathlib.Core.Path.{subst}
use klomang_network.Verkle.{Curve, MemoryStorage, node_exists}
use klomang_network.Verkle.Roots.{state_root}
use klomang_network.State.{StateSnapshot}

-- A snapshot of the height given whose root is that of the storage beside it.
pub record IsPair (k : Curve) (i : ℕ) (s : StateSnapshot) (t : MemoryStorage) : Type 0 where
  pub height : s.height ≡ i
  pub root : s.root ≡ state_root k t
  pub rooted : node_exists t [] ≡ true

-- The heights count up from the one given, and every snapshot has its storage.
unfoldable pub Fit : Curve → ℕ → List StateSnapshot → List MemoryStorage → Type 0
Fit k i [] [] = Unit
Fit k i [] (t ∷ ts) = ⊥
Fit k i (s ∷ ss) [] = ⊥
Fit k i (s ∷ ss) (t ∷ ts) = IsPair k i s t × Fit k (i + 1) ss ts

module _ (k : Curve) where
  pub Fit-length :
      (i : ℕ) (ss : List StateSnapshot) (ts : List MemoryStorage)
      → Fit k i ss ts
      → length ss ≡ length ts
  unfolding Fit
  Fit-length i [] [] h = refl
  Fit-length i [] (t ∷ ts) h = absurd h
  Fit-length i (s ∷ ss) [] h = absurd h
  Fit-length i (s ∷ ss) (t ∷ ts) h = ap suc (Fit-length (i + 1) ss ts h.1)

  pub Fit-append :
      (i : ℕ) (ss : List StateSnapshot) (ts : List MemoryStorage) (s : StateSnapshot)
      (t : MemoryStorage)
      → Fit k i ss ts
      → IsPair k (i + length ss) s t
      → Fit k i (ss ++ s ∷ []) (ts ++ t ∷ [])
  unfolding Fit
  Fit-append i [] [] s t h p = (subst (λ (n : ℕ). IsPair k n s t) (omega arith) p, tt)
  Fit-append i [] (t' ∷ ts) s t h p = absurd h
  Fit-append i (s' ∷ ss) [] s t h p = absurd h
  Fit-append i (s' ∷ ss) (t' ∷ ts) s t h p =
      (h.0, Fit-append (i + 1) ss ts s t h.1 (subst (λ (n : ℕ). IsPair k n s t) (omega arith) p))

  pub Fit-take :
      (n i : ℕ) (ss : List StateSnapshot) (ts : List MemoryStorage)
      → Fit k i ss ts
      → Fit k i (take n ss) (take n ts)
  unfolding Fit
  Fit-take zero i ss ts h = tt
  Fit-take (suc n) i [] [] h = tt
  Fit-take (suc n) i [] (t ∷ ts) h = absurd h
  Fit-take (suc n) i (s ∷ ss) [] h = absurd h
  Fit-take (suc n) i (s ∷ ss) (t ∷ ts) h = (h.0, Fit-take n (i + 1) ss ts h.1)

  -- The pair at a position in range.
  pub Fit-get :
      (n i : ℕ) (ss : List StateSnapshot) (ts : List MemoryStorage)
      → Fit k i ss ts
      → n < length ss
      → (s : StateSnapshot) × (t : MemoryStorage) × (get_elem? ss n ≡ some s)
        × (get_elem? ts n ≡ some t)
        × IsPair k (i + n) s t
  unfolding Fit
  Fit-get n i [] ts h small = absurd (omega (arith, small))
  Fit-get n i (s ∷ ss) [] h small = absurd h
  Fit-get zero i (s ∷ ss) (t ∷ ts) h small =
      (s, t, refl, refl, subst (λ (j : ℕ). IsPair k j s t) (omega arith) h.0)
  Fit-get (suc n) i (s ∷ ss) (t ∷ ts) h small =
      let (s', t', e, e', p) = Fit-get n (i + 1) ss ts h.1 (omega (arith, small)) in
      (s', t', e, e', subst (λ (j : ℕ). IsPair k j s' t') (omega arith) p)

pub get_elem?-take {ℓ} :
    {A : Type ℓ} (n m : ℕ) (xs : List A) → n < m → get_elem? (take m xs) n ≡ get_elem? xs n
get_elem?-take n zero xs h = absurd (omega (arith, h))
get_elem?-take n (suc m) [] h = refl
get_elem?-take zero (suc m) (x ∷ xs) h = refl
get_elem?-take (suc n) (suc m) (x ∷ xs) h = get_elem?-take n m xs (omega (arith, h))

pub length-take {ℓ} :
    {A : Type ℓ} (n : ℕ) (xs : List A) → n < length xs → length (take (suc n) xs) ≡ suc n
length-take n [] h = absurd (omega (arith, h))
length-take zero (x ∷ xs) h = refl
length-take (suc n) (x ∷ xs) h = ap suc (length-take n xs (omega (arith, h)))
