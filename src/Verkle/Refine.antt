-- ===== src/Verkle/Refine.antt =====
-- Runs of calls on the tree read as runs on an abstract map that forgets nodes, caches and roots.
use klomang_network.Prelude.{
  ℕ, ◌^◌, ◌<◌, ◌≡◌, Bool, true, false, ◌&&◌, ◌||◌, Option, none, some, List, [], ◌∷◌, length,
  if◌then◌else◌, ◌==◌, list_eq, is_some, All, arith, refl, ap, sym, ◌∙◌,
}
use klomang_network.Prelude.Set
use klomang_network.Prelude.Result.{Result, ok, err}
use klomang_network.Verkle.{
  Curve, MemoryStorage, VerkleTree, TreeError, key_pruned, key_absent, key_size, node_exists,
  get_node_value, insert_key, prune_key, get, get_root, new,
}
use klomang_network.Verkle.Values.{
  insert_key-value, insert_key-pruned, insert_key-exists, prune_key-lem, get_node_value-ensure,
  longer,
}
use klomang_network.Verkle.Nodes.{ensure_node-exists}
use klomang_network.Prelude.Map.{lookup}
use klomang_network.Verkle.Steps.{
  IsTree, insert_key-IsTree, prune_key-IsTree, get_root-state_root, new-IsTree,
}
use klomang_network.Verkle.Roots.{state_root}

pub data Call : Type 0 where
  write : List ℕ → List ℕ → Call
  prune read : List ℕ → Call
  root : Call

pub data Answer : Type 0 where
  done : Answer
  pruned : Result TreeError (Unit {0}) → Answer
  found : Result TreeError (Option (List ℕ)) → Answer

-- One call of the tree; a root that is asked for is read and left.
unfoldable pub step : Curve → Call → VerkleTree → Answer × VerkleTree
step c (write key value) t = (done, insert_key key value t)
step c (prune key) t = let (r, t') = prune_key key t in (pruned r, t')
step c (read key) t = (found (get key t), t)
step c root t = (done, (get_root c t).1)

unfoldable pub run : Curve → List Call → VerkleTree → List Answer
run c [] t = []
run c (call ∷ calls) t = let (answer, t') = step c call t in answer ∷ run c calls t'

-- The abstract view: the value of each key, and whether the key was ever pruned.
pub record View : Type 0 where
  pub value : List ℕ → Option (List ℕ)
  pub is_pruned : List ℕ → Bool

unfoldable pub view_step : Call → View → Answer × View
view_step (write key value) w =
    (done, record w { value = λ q. if key == q then some value else w.value q })
view_step (prune key) w =
    let hit = is_some (w.value key) in
    (
      pruned (if hit then ok tt else err key_absent),
      record {
        value = λ q. if hit && (key == q) then none else w.value q;
        is_pruned = λ q. (hit && (key == q)) || w.is_pruned q;
      },
    )
view_step (read key) w = (found (if w.is_pruned key then err key_pruned else ok (w.value key)), w)
view_step root w = (done, w)

unfoldable pub replay : List Call → View → List Answer
replay [] w = []
replay (call ∷ calls) w = let (answer, w') = view_step call w in answer ∷ replay calls w'

-- The keys are whole keys, and the values have a length that fits its field.
unfoldable pub Fits : Call → Type 0
Fits (write key value) = (length key ≡ key_size) × (length value < 2 ^ 32)
Fits (prune key) = length key ≡ key_size
Fits (read key) = length key ≡ key_size
Fits root = Unit

-- The view shows what the tree holds at each whole key.
pub record Shows (t : VerkleTree) (w : View) : Type 0 where
  pub same_value : (q : List ℕ) → length q ≡ key_size → get_node_value t.storage q ≡ w.value q
  pub same_exists :
      (q : List ℕ) → length q ≡ key_size → node_exists t.storage q ≡ is_some (w.value q)
  pub same_pruned :
      (q : List ℕ) → length q ≡ key_size → Set.contains t.pruned_keys q ≡ w.is_pruned q

-- What one step of both should give.
abbrev Simulates : Answer × VerkleTree → Answer × View → Type 0
Simulates r r' = (r.0 ≡ r'.0) × Shows r.1 r'.1

some_if :
    (b : Bool) (v : List ℕ) (o : Option (List ℕ))
    → (if b then true else is_some o) ≡ is_some (if b then some v else o)
some_if true v o = refl
some_if false v o = refl

none_if :
    (b : Bool) (o : Option (List ℕ))
    → (if b then false else is_some o) ≡ is_some (if b then none else o)
none_if true o = refl
none_if false o = refl

write-Simulates :
    (c : Curve) (key value : List ℕ) (t : VerkleTree) (w : View)
    → length key ≡ key_size
    → length value < 2 ^ 32
    → Shows t w
    → Simulates (step c (write key value) t) (view_step (write key value) w)
unfolding step view_step
write-Simulates c key value t w k v h = (
  refl,
  record {
    same_value = λ q n. insert_key-value key value q t v ∙ rw (h.same_value q n) refl;
    same_exists = λ q n.
        insert_key-exists key value q t (k ∙ sym n) (omega (arith, n))
        ∙ rw (h.same_exists q n) (some_if (key == q) value (w.value q));
    same_pruned = λ q n.
        ap (λ (p : List (List ℕ)). Set.contains p q) (insert_key-pruned key value t)
        ∙ h.same_pruned q n;
  },
)

prune-Simulates :
    (c : Curve) (key : List ℕ) (t : VerkleTree) (w : View)
    → length key ≡ key_size
    → Shows t w
    → Simulates (step c (prune key) t) (view_step (prune key) w)
unfolding step view_step
prune-Simulates c key t w k h =
    let there = h.same_exists key k in
    let law = λ (q : List ℕ) (n : length q ≡ key_size). prune_key-lem key q t (k ∙ sym n) in
    (
      ap pruned ((law key k).0 ∙ rw there refl),
      record {
        same_value = λ q n. (law q n).1 ∙ rw (there, h.same_value q n) refl;
        same_exists = λ q n.
            (law q n).2
            ∙ rw (there, h.same_exists q n)
                (none_if (is_some (w.value key) && (key == q)) (w.value q));
        same_pruned = λ q n. (law q n).3 ∙ rw (there, h.same_pruned q n) refl;
      },
    )

root-Simulates :
    (c : Curve) (t : VerkleTree) (w : View)
    → IsTree c t
    → Shows t w
    → Simulates (step c root t) (view_step root w)
unfolding step view_step
root-Simulates c t w i h =
    let kept = get_root-state_root c t i in
    (
      refl,
      record {
        same_value =
            λ q n. ap (λ (s : MemoryStorage). get_node_value s q) kept.2 ∙ h.same_value q n;
        same_exists = λ q n. ap (λ (s : MemoryStorage). node_exists s q) kept.2 ∙ h.same_exists q n;
        same_pruned =
            λ q n. ap (λ (p : List (List ℕ)). Set.contains p q) kept.3 ∙ h.same_pruned q n;
      },
    )

read-Simulates :
    (c : Curve) (key : List ℕ) (t : VerkleTree) (w : View)
    → length key ≡ key_size
    → Shows t w
    → Simulates (step c (read key) t) (view_step (read key) w)
unfolding step view_step get
read-Simulates c key t w k h = (rw (h.same_value key k, h.same_pruned key k) refl, h)

step-Simulates :
    (c : Curve) (call : Call) (t : VerkleTree) (w : View)
    → Fits call
    → IsTree c t
    → Shows t w
    → Simulates (step c call t) (view_step call w)
unfolding Fits
step-Simulates c (write key value) t w f i h = write-Simulates c key value t w f.0 f.1 h
step-Simulates c (prune key) t w f i h = prune-Simulates c key t w f h
step-Simulates c (read key) t w f i h = read-Simulates c key t w f h
step-Simulates c root t w f i h = root-Simulates c t w i h

step-IsTree :
    (c : Curve) (call : Call) (t : VerkleTree) → Fits call → IsTree c t → IsTree c (step c call t).1
unfolding step Fits
step-IsTree c (write key value) t f h = insert_key-IsTree c key value t h
step-IsTree c (prune []) t f h = absurd (omega (arith, f))
step-IsTree c (prune (b ∷ key)) t f h = prune_key-IsTree c b key t h
step-IsTree c (read key) t f h = h
step-IsTree c root t f h = (get_root-state_root c t h).1

-- From a tree with right caches that a view shows, every run of calls with whole keys and values
-- that fit gives the answers of the abstract map.
pub run-replay :
    (c : Curve) (calls : List Call) (t : VerkleTree) (w : View)
    → All Fits calls
    → IsTree c t
    → Shows t w
    → run c calls t ≡ replay calls w
unfolding run replay
run-replay c [] t w f i h = refl
run-replay c (call ∷ calls) t w f i h =
    let one = step-Simulates c call t w f.0 i h in
    rw
      (
        one.0,
        run-replay c calls (step c call t).1 (view_step call w).1 f.1 (step-IsTree c call t f.0 i)
            one.1,
      )
      refl

-- The view of a new tree: no values, and nothing pruned.
unfoldable pub blank : View
blank = record { value = λ q. none; is_pruned = λ q. false }

pub new-Shows : Shows (new []) blank
unfolding new blank get_node_value node_exists lookup Set.contains
new-Shows = record {
  same_value = λ q n. get_node_value-ensure [] q [];
  same_exists = λ q n. ensure_node-exists [] q [] ∙ rw (longer [] q (omega (arith, n))) refl;
  same_pruned = λ q n. refl;
}

-- The tree after a run of calls.
unfoldable pub after : Curve → List Call → VerkleTree → VerkleTree
after c [] t = t
after c (call ∷ calls) t = after c calls (step c call t).1

pub after-IsTree :
    (c : Curve) (calls : List Call) (t : VerkleTree)
    → All Fits calls
    → IsTree c t
    → IsTree c (after c calls t)
unfolding after
after-IsTree c [] t f i = i
after-IsTree c (call ∷ calls) t f i =
    after-IsTree c calls (step c call t).1 f.1 (step-IsTree c call t f.0 i)

unfoldable pub view_after : List Call → View → View
view_after [] w = w
view_after (call ∷ calls) w = view_after calls (view_step call w).1

pub after-Shows :
    (c : Curve) (calls : List Call) (t : VerkleTree) (w : View)
    → All Fits calls
    → IsTree c t
    → Shows t w
    → Shows (after c calls t) (view_after calls w)
unfolding after view_after
after-Shows c [] t w f i h = h
after-Shows c (call ∷ calls) t w f i h =
    after-Shows c calls (step c call t).1 (view_step call w).1 f.1 (step-IsTree c call t f.0 i)
      (step-Simulates c call t w f.0 i h).1

-- After any run of calls with whole keys and values that fit on a new tree, the root that is
-- returned is the root of what is stored, as a tree without caches would compute it.
pub get_root-after :
    (c : Curve) (calls : List Call) (s : MemoryStorage)
    → All Fits calls
    → (get_root c (after c calls (new s))).0 ≡ state_root c (after c calls (new s)).storage
get_root-after c calls s f =
    (get_root-state_root c (after c calls (new s))
      (after-IsTree c calls (new s) f (new-IsTree c s))).0
