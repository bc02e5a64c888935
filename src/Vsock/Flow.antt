-- ===== src/Vsock/Flow.antt =====
-- `Flow` of src/devices/vsock_mux.rs, and the `HashMap<Flow, V>` of the multiplexer as an
-- association list: the order of the list stands for the map's order of iteration.
use kitsune.Base.{
  ℕ, ◌≡◌, refl, ◌↔◌, Bool, true, false, ◌&&◌, Option, none, some, List, [], ◌∷◌, arith, ◌==◌,
  if◌then◌else◌, length, is_some, ◌≤◌, inl, inr, subst, Bool-cases,
}
use mathlib.Core.Option

pub record Flow : Type 0 where
  pub guest_port : ℕ
  pub host_port : ℕ

-- `PartialEq` of `Flow`, which is derived.
unfoldable pub flow_eq : Flow → Flow → Bool
flow_eq a b = (a.guest_port == b.guest_port) && (a.host_port == b.host_port)

pub flow_eq_iff : (a b : Flow) → (flow_eq a b ≡ true) ↔ (a ≡ b)
unfolding flow_eq
flow_eq_iff a b = ground arith

pub flow_eq_refl : (a : Flow) → flow_eq a a ≡ true
flow_eq_refl a = (flow_eq_iff a a).1 refl

module _ {ℓ} {V : Type ℓ} where
  -- `HashMap::get`
  unfoldable pub get : Flow → List (Flow × V) → Option V
  get k [] = none
  get k ((j, v) ∷ m) = if flow_eq j k then some v else get k m

  -- `HashMap::contains_key`
  abbrev pub contains_key : Flow → List (Flow × V) → Bool
  contains_key k m = is_some (get k m)

  -- `HashMap::remove`
  pub remove : Flow → List (Flow × V) → List (Flow × V)
  remove k [] = []
  remove k ((j, v) ∷ m) = if flow_eq j k then remove k m else (j, v) ∷ remove k m

  -- `HashMap::insert`
  pub insert : Flow → V → List (Flow × V) → List (Flow × V)
  insert k v m = (k, v) ∷ remove k m

  -- A change through `HashMap::get_mut`
  pub adjust : Flow → (V → V) → List (Flow × V) → List (Flow × V)
  adjust k f [] = []
  adjust k f ((j, v) ∷ m) = if flow_eq j k then (j, f v) ∷ adjust k f m else (j, v) ∷ adjust k f m

  pub get-remove :
      (j k : Flow) (m : List (Flow × V))
      → get j (remove k m) ≡ (if flow_eq k j then none else get j m)
  unfolding get remove
  get-remove j k [] = ground arith
  get-remove j k ((i, v) ∷ m) =
      ground (arith, flow_eq_iff i k, flow_eq_iff k j, flow_eq_iff i j, get-remove j k m)

  pub get-insert :
      (j k : Flow) (v : V) (m : List (Flow × V))
      → get j (insert k v m) ≡ (if flow_eq k j then some v else get j m)
  unfolding get insert
  get-insert j k v m = ground (arith, get-remove j k m)

  pub get-adjust :
      (j k : Flow) (f : V → V) (m : List (Flow × V))
      → get j (adjust k f m) ≡ (if flow_eq k j then Option.map f (get k m) else get j m)
  unfolding get adjust
  get-adjust j k f [] = ground arith
  get-adjust j k f ((i, v) ∷ m) =
      ground (arith, flow_eq_iff i k, flow_eq_iff k j, flow_eq_iff i j, get-adjust j k f m)

  pub length-remove-le : (k : Flow) (m : List (Flow × V)) → length (remove k m) ≤ length m
  unfolding remove
  length-remove-le k [] = omega arith
  length-remove-le k ((j, v) ∷ m) = ground (arith, length-remove-le k m)

  pub length-adjust :
      (k : Flow) (f : V → V) (m : List (Flow × V)) → length (adjust k f m) ≡ length m
  unfolding adjust
  length-adjust k f [] = refl
  length-adjust k f ((j, v) ∷ m) = ground (arith, length-adjust k f m)

module _ {ℓ κ} {V : Type ℓ} (P : V → Type κ) where
  -- Every value of the map has the property.
  abbrev pub Values : List (Flow × V) → Type κ
  Values [] = Unit
  Values ((j, v) ∷ m) = P v × Values m

  pub remove-Values : (k : Flow) (m : List (Flow × V)) → Values m → Values (remove k m)
  unfolding remove
  remove-Values k [] h = tt
  remove-Values k ((j, v) ∷ m) h = ground (arith, remove-Values k m h.1)

  pub insert-Values :
      (k : Flow) (v : V) (m : List (Flow × V)) → P v → Values m → Values (insert k v m)
  unfolding insert
  insert-Values k v m p h = (p, remove-Values k m h)

  pub adjust-Values :
      (k : Flow) (v : V) (m : List (Flow × V)) → P v → Values m → Values (adjust k (λ _. v) m)
  unfolding adjust
  adjust-Values k v [] p h = tt
  adjust-Values k v ((j, w) ∷ m) p h = ground (arith, adjust-Values k v m p h.1)

  pub get-Values : (k : Flow) (v : V) (m : List (Flow × V)) → get k m ≡ some v → Values m → P v
  unfolding get
  get-Values k v [] e h = cc
  get-Values k v ((j, w) ∷ m) e h = elim (Bool-cases (flow_eq j k)) [
    | inl hit ↦ let same : w ≡ v = ground arith in subst P same h.0
    | inr miss ↦ get-Values k v m (rw miss at e) h.1
  ]

module _ {ℓ} {V : Type ℓ} where
  pub contains_key-adjust :
      (j k : Flow) (f : V → V) (m : List (Flow × V))
      → contains_key j (adjust k f m) ≡ contains_key j m
  contains_key-adjust j k f m = ground (arith, get-adjust j k f m, flow_eq_iff k j)

  pub contains_key-remove :
      (j k : Flow) (m : List (Flow × V))
      → flow_eq k j ≡ false
      → contains_key j (remove k m) ≡ contains_key j m
  contains_key-remove j k m n = ground (arith, get-remove j k m)

  pub contains_key-insert :
      (j k : Flow) (v : V) (m : List (Flow × V))
      → contains_key j m ≡ true
      → contains_key j (insert k v m) ≡ true
  contains_key-insert j k v m e = ground (arith, get-insert j k v m)

  pub contains_key_of_get :
      (k : Flow) (v : V) (m : List (Flow × V)) → get k m ≡ some v → contains_key k m ≡ true
  contains_key_of_get k v m e = ground arith

pub flow_eq_sym : (a b : Flow) → flow_eq a b ≡ flow_eq b a
unfolding flow_eq
flow_eq_sym a b = ground arith
