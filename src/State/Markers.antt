-- ===== src/State/Markers.antt =====
-- Which markers the pruning of proofs keeps.
use klomang_network.Prelude.{
  ℕ, zero, suc, ◌-◌, ◌<◌, ◌≤◌, ◌≡◌, inl, inr, Bool, true, false, List, [], ◌∷◌, ◌++◌, eqb, leb,
  length, take, drop, if◌then◌else◌, pair_eq, All, All-map, arith, refl, dec_le, leb-true,
  leb-false,
}
use mathlib.Core.Path.{subst}
use mathlib.Core.List.{Perm}
use mathlib.Core.List.Perm
use klomang_network.Prelude.{Bool-cases, sym, ap, ◌∙◌}
use klomang_network.Utxo.{OutPoint}
use klomang_network.State.{StateManager, PruneMarker}
use klomang_network.State.Prune.{
  insert_by_timestamp, sort_by_timestamp, rebuild_state_root_and_prune_proofs,
}

-- The entries in the order of their timestamps.
unfoldable pub IsSorted : List (OutPoint × PruneMarker) → Type 0
IsSorted [] = Unit
IsSorted ((k, marker) ∷ r) = All (λ e. marker.timestamp ≤ e.1.timestamp) r × IsSorted r

All-if {ℓ κ} :
    {A : Type ℓ} (P : A → Type κ) (b : Bool) (xs ys : List A)
    → All P xs
    → All P ys
    → All P (if b then xs else ys)
All-if P true xs ys hx hy = hx
All-if P false xs ys hx hy = hy

insert-All :
    (t : ℕ) (k : OutPoint) (marker : PruneMarker) (r : List (OutPoint × PruneMarker))
    → t ≤ marker.timestamp
    → All (λ e. t ≤ e.1.timestamp) r
    → All (λ e. t ≤ e.1.timestamp) (insert_by_timestamp (k, marker) r)
unfolding insert_by_timestamp
insert-All t k marker [] h all = (h, tt)
insert-All t k marker ((j, other) ∷ r) h all =
    All-if (λ (e : OutPoint × PruneMarker). t ≤ e.1.timestamp)
      (leb marker.timestamp other.timestamp) ((k, marker) ∷ (j, other) ∷ r)
      ((j, other) ∷ insert_by_timestamp (k, marker) r) (h, all)
      (all.0, insert-All t k marker r h all.1)

insert-IsSorted :
    (k : OutPoint) (marker : PruneMarker) (r : List (OutPoint × PruneMarker))
    → IsSorted r
    → IsSorted (insert_by_timestamp (k, marker) r)
unfolding insert_by_timestamp IsSorted
insert-IsSorted k marker [] h = (tt, tt)
insert-IsSorted k marker ((j, other) ∷ r) h = elim (dec_le marker.timestamp other.timestamp) [
  | yes low ↦ rw (leb-true marker.timestamp other.timestamp low) (
    (
      low,
      All-map (λ e. other.timestamp ≤ e.1.timestamp) (λ e. marker.timestamp ≤ e.1.timestamp)
          (λ e b. omega (arith, b, low)) r h.0,
    ),
    h,
  )
  | no high ↦
      let above : other.timestamp < marker.timestamp = omega (arith, high) in
      rw (leb-false marker.timestamp other.timestamp above) (
        insert-All other.timestamp k marker r (omega (arith, above)) h.0,
        insert-IsSorted k marker r h.1,
      )
]

sort_by_timestamp-IsSorted : (r : List (OutPoint × PruneMarker)) → IsSorted (sort_by_timestamp r)
unfolding sort_by_timestamp IsSorted
sort_by_timestamp-IsSorted [] = tt
sort_by_timestamp-IsSorted ((k, marker) ∷ r) =
    insert-IsSorted k marker (sort_by_timestamp r) (sort_by_timestamp-IsSorted r)

All-take {ℓ κ} :
    {A : Type ℓ} (P : A → Type κ) (n : ℕ) (xs : List A)
    → All P xs
    → All P (take n xs) × All P (drop n xs)
All-take P zero xs h = (tt, h)
All-take P (suc n) [] h = (tt, tt)
All-take P (suc n) (x ∷ xs) h = let rest = All-take P n xs h.1 in ((h.0, rest.0), rest.1)

-- In a sorted list what is taken is no newer than what is dropped.
take-IsSorted :
    (n : ℕ) (r : List (OutPoint × PruneMarker))
    → IsSorted r
    → All (λ e. All (λ e'. e.1.timestamp ≤ e'.1.timestamp) (drop n r)) (take n r)
unfolding IsSorted
take-IsSorted zero r h = tt
take-IsSorted (suc n) [] h = tt
take-IsSorted (suc n) ((k, marker) ∷ r) h =
    ((All-take (λ e. marker.timestamp ≤ e.1.timestamp) n r h.0).1, take-IsSorted n r h.1)

insert_by_timestamp-Perm :
    (entry : OutPoint × PruneMarker) (r : List (OutPoint × PruneMarker))
    → Perm (insert_by_timestamp entry r) (entry ∷ r)
unfolding insert_by_timestamp
insert_by_timestamp-Perm (k, marker) [] = Perm.refl ((k, marker) ∷ [])
insert_by_timestamp-Perm (k, marker) ((j, other) ∷ r) =
    elim (Bool-cases (leb marker.timestamp other.timestamp)) [
      | inl e ↦ rw e (Perm.refl ((k, marker) ∷ (j, other) ∷ r))
      | inr e ↦ rw e (
          Perm.trans (Perm.cons (j, other) (insert_by_timestamp-Perm (k, marker) r))
            (Perm.swap (k, marker) (j, other) r))
    ]

sort_by_timestamp-Perm : (r : List (OutPoint × PruneMarker)) → Perm (sort_by_timestamp r) r
unfolding sort_by_timestamp
sort_by_timestamp-Perm [] = Perm.refl []
sort_by_timestamp-Perm (entry ∷ r) =
    Perm.trans (insert_by_timestamp-Perm entry (sort_by_timestamp r))
      (Perm.cons entry (sort_by_timestamp-Perm r))

length-insert_by_timestamp :
    (entry : OutPoint × PruneMarker) (r : List (OutPoint × PruneMarker))
    → length (insert_by_timestamp entry r) ≡ suc (length r)
unfolding insert_by_timestamp
length-insert_by_timestamp (k, marker) [] = refl
length-insert_by_timestamp (k, marker) ((j, other) ∷ r) =
    ground (arith, length-insert_by_timestamp (k, marker) r)

length-sort_by_timestamp :
    (r : List (OutPoint × PruneMarker)) → length (sort_by_timestamp r) ≡ length r
unfolding sort_by_timestamp
length-sort_by_timestamp [] = refl
length-sort_by_timestamp (entry ∷ r) =
    length-insert_by_timestamp entry (sort_by_timestamp r) ∙ ap suc (length-sort_by_timestamp r)

-- A list is what is taken of it and what is dropped.
take-drop {ℓ} :
    {A : Type ℓ} (n : ℕ) (xs : List A)
    → n ≤ length xs
    → (take n xs ++ drop n xs ≡ xs)
      × (length (take n xs) ≡ n)
      × (length (drop n xs) ≡ length xs - n)
take-drop zero xs h = (refl, refl, omega arith)
take-drop (suc n) [] h = absurd (omega (arith, h))
take-drop (suc n) (x ∷ xs) h =
    let (whole, front, back) = take-drop n xs (omega (arith, h)) in
    (ap (◌∷◌ x) whole, ap suc front, omega (arith, back))

-- Of more than a thousand markers the pruning of proofs keeps exactly a thousand and drops the
-- others, whose number it returns; together they are the markers that there were, and none that is
-- kept is newer than one that is dropped.
pub rebuild_state_root_and_prune_proofs_lem :
    (m : StateManager)
    → 1000 < length m.prune_markers
    → let (count, after) = rebuild_state_root_and_prune_proofs m in
      (dropped : List (OutPoint × PruneMarker)) × (length after.prune_markers ≡ 1000)
      × (length dropped ≡ count)
      × Perm (after.prune_markers ++ dropped) m.prune_markers
      × All (λ e. All (λ e'. e.1.timestamp ≤ e'.1.timestamp) dropped) after.prune_markers
unfolding rebuild_state_root_and_prune_proofs
rebuild_state_root_and_prune_proofs_lem m h =
    let sorted = sort_by_timestamp m.prune_markers in
    let many : eqb (length m.prune_markers - 1000) 0 ≡ false = ground (arith, h) in
    let size = length-sort_by_timestamp m.prune_markers in
    let (whole, front, back) = take-drop 1000 sorted (omega (arith, h, size)) in
    rw many (
      drop 1000 sorted,
      front,
      omega (arith, back, size),
      subst (λ (l : List (OutPoint × PruneMarker)). Perm l m.prune_markers) (sym whole)
          (sort_by_timestamp-Perm m.prune_markers),
      take-IsSorted 1000 sorted (sort_by_timestamp-IsSorted m.prune_markers),
    )
