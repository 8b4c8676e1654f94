-- ===== src/Projection/Incidents/Kept.antt =====
-- projection/memory/mod.rs: the incident indexes that events build, and that they answer.
use weavatrix_memory.Base.{
  ℕ, zero, suc, ◌+◌, ◌-◌, ◌≤◌, ◌<◌, ◌≡◌, ◌≢◌, refl, sym, ap, subst, ◌∙◌, inl, inr, arith, Option,
  none, some, List, [], ◌∷◌, ◌++◌, get_elem?, get_last?, All, All-append, All-map, take, drop,
  length, length-snoc, ok, panic, or_panic, try_map, ◌>>=◌, >>=-eq-ok, >>=-ne-panic, ok-ne-panic,
  ok_injective, Option-cases, Bool-cases, eqb,
}
use weavatrix_memory.Map.{Map, lookup, insert, lookup-insert, nat_key}
use weavatrix_memory.Domain.{MemoryFact}
use weavatrix_memory.Projection.State.{
  MemoryProjection, NodeHistory, NodeRevision, new_history, with_seeds,
}
use weavatrix_memory.Projection.Query.{slice, delta_of}
use weavatrix_memory.Projection.Update.{last_or_zero, push_later, place_node, place_fact}
use weavatrix_memory.Projection.WellFormed.{IsWellFormed}
use weavatrix_memory.Projection.Incidents.{HasIncidents, incident_fact_ids-ne-panic}

-- Offsets in order, up to a limit.
unfoldable pub Ascends : (limit : ℕ) → List ℕ → Type 0
Ascends limit [] = Unit {0}
Ascends limit (x ∷ []) = x ≤ limit
Ascends limit (x ∷ y ∷ xs) = (x ≤ y) × Ascends limit (y ∷ xs)

abbrev pub AllBelow : (n : ℕ) → List ℕ → Type 0
AllBelow n = All (λ j. j < n)

abbrev pub DeltaBelow : (n : ℕ) → Map ℕ (List ℕ) → Type 0
DeltaBelow n m = (i : ℕ) (js : List ℕ) → lookup i m ≡ some js → AllBelow n js

-- One range for each node, and positions of facts.
pub record IsIndexed (p : MemoryProjection) : Type 0 where
  pub spans : length p.incident_offsets ≡ suc (length p.nodes)
  pub ranges : Ascends (length p.incident_facts) p.incident_offsets
  pub stable : AllBelow (length p.facts) p.incident_facts
  pub delta : DeltaBelow (length p.facts) p.incident_delta

Ascends-first : (limit x : ℕ) (xs : List ℕ) → Ascends limit (x ∷ xs) → x ≤ limit
unfolding Ascends
Ascends-first limit x [] h = h
Ascends-first limit x (y ∷ xs) h = omega (arith, h.0, Ascends-first limit y xs h.1)

Ascends-snoc :
    (limit : ℕ) (x : ℕ) (xs : List ℕ)
    → Ascends limit (x ∷ xs)
    → Ascends limit ((x ∷ xs) ++ last_or_zero (get_last? (x ∷ xs)) ∷ [])
unfolding Ascends
Ascends-snoc limit x [] h = (omega arith, h)
Ascends-snoc limit x (y ∷ xs) h = (h.0, Ascends-snoc limit y xs h.1)

range_of :
    (limit : ℕ) (nodes : List NodeHistory) (offsets : List ℕ) (i : ℕ) (h : NodeHistory)
    → length offsets ≡ suc (length nodes)
    → Ascends limit offsets
    → get_elem? nodes i ≡ some h
    → (a : ℕ) × (b : ℕ) × (get_elem? offsets i ≡ some a)
      × (get_elem? offsets (suc i) ≡ some b)
      × (a ≤ b)
      × (b ≤ limit)
unfolding Ascends
range_of limit [] offsets i h s r at = cc
range_of limit (n ∷ ns) [] i h s r at = absurd (omega (arith, s))
range_of limit (n ∷ ns) (x ∷ []) i h s r at = absurd (omega (arith, s))
range_of limit (n ∷ ns) (x ∷ y ∷ xs) zero h s r at =
    (x, y, refl, refl, r.0, Ascends-first limit y xs r.1)
range_of limit (n ∷ ns) (x ∷ y ∷ xs) (suc i) h s r at =
    range_of limit ns (y ∷ xs) i h (omega (arith, s)) r.1 at

AllBelow-take : (n k : ℕ) (js : List ℕ) → AllBelow n js → AllBelow n (take k js)
AllBelow-take n zero js h = tt
AllBelow-take n (suc k) [] h = tt
AllBelow-take n (suc k) (j ∷ js) h = (h.0, AllBelow-take n k js h.1)

AllBelow-drop : (n k : ℕ) (js : List ℕ) → AllBelow n js → AllBelow n (drop k js)
AllBelow-drop n zero js h = h
AllBelow-drop n (suc k) [] h = tt
AllBelow-drop n (suc k) (j ∷ js) h = AllBelow-drop n k js h.1

delta_of-AllBelow :
    (n i : ℕ) (m : Map ℕ (List ℕ)) → DeltaBelow n m → AllBelow n (delta_of (lookup i m))
delta_of-AllBelow n i m h = elim (Option-cases (lookup i m)) [
  | inl q ↦ rw q tt
  | inr (js, q) ↦ rw q (h i js q)
]

fact_at :
    (fs : List MemoryFact) (i : ℕ) → i < length fs → (f : MemoryFact) × (get_elem? fs i ≡ some f)
fact_at [] i h = absurd (omega (arith, h))
fact_at (f ∷ fs) zero h = (f, refl)
fact_at (f ∷ fs) (suc i) h = fact_at fs i (omega (arith, h))

module _ (p : MemoryProjection) where
  listed-ne-panic :
      (is : List ℕ)
      → AllBelow (length p.facts) is
      → try_map (λ i. or_panic (get_elem? p.facts i) >>= λ f. ok f.id) is ≢ panic
  listed-ne-panic [] h = ok-ne-panic []
  listed-ne-panic (i ∷ is) h =
      let (f, at) = fact_at p.facts i h.0 in
      rw at (>>=-ne-panic _ _ (listed-ne-panic is h.1) (λ ids _. ok-ne-panic (f.id ∷ ids)))

  -- The incident indexes of a well-formed projection answer for every identifier.
  pub IsIndexed-HasIncidents : IsWellFormed p → IsIndexed p → HasIncidents p
  IsIndexed-HasIncidents w k = incident_fact_ids-ne-panic p w (λ i h at.
      let (a, b, first, next, order, within) =
        range_of (length p.incident_facts) p.nodes p.incident_offsets i h k.spans k.ranges at in
      let one : suc i ≡ i + 1 = omega arith in
      let then = subst (λ k. get_elem? p.incident_offsets k ≡ some b) one next in
      let part = take (b - a) (drop a p.incident_facts) in
      let sliced : slice p.incident_facts a b ≡ ok part = ground (arith, order, within) in
      rw (first, then, sliced)
        (listed-ne-panic (part ++ delta_of (lookup i p.incident_delta)) (
          All-append _ part (delta_of (lookup i p.incident_delta))
            (AllBelow-take _ (b - a) (drop a p.incident_facts)
              (AllBelow-drop _ a p.incident_facts k.stable))
            (delta_of-AllBelow _ i p.incident_delta k.delta))))

pub with_seeds-IsIndexed : (a b : ℕ) → IsIndexed (with_seeds a b)
unfolding Ascends lookup
with_seeds-IsIndexed a b = record {
  spans = refl;
  ranges = omega arith;
  stable = tt;
  delta = λ i js h. cc;
}

length-push_later :
    (hs : List NodeHistory) (i : ℕ) (r : NodeRevision) (hs' : List NodeHistory)
    → push_later hs i r ≡ ok hs'
    → length hs' ≡ length hs
length-push_later [] i r hs' h = cc
length-push_later (g ∷ hs) zero r hs' h = ap length (sym (ok_injective h))
length-push_later (g ∷ hs) (suc i) r hs' h =
    let (rest, done, same) = >>=-eq-ok (push_later hs i r) (λ t. ok (g ∷ t)) h in
    ap length (sym (ok_injective same)) ∙ ap suc (length-push_later hs i r rest done)

Ascends-last :
    (limit : ℕ) (xs : List ℕ)
    → 0 < length xs
    → Ascends limit xs
    → Ascends limit (xs ++ last_or_zero (get_last? xs) ∷ [])
Ascends-last limit [] k h = absurd (omega (arith, k))
Ascends-last limit (x ∷ xs) k h = Ascends-snoc limit x xs h

pub place_node-IsIndexed :
    (p p' : MemoryProjection) (r : NodeRevision) (o : Option ℕ)
    → IsIndexed p
    → place_node p r o ≡ ok p'
    → IsIndexed p'
place_node-IsIndexed p p' r (some i) k h =
    let (hs, done, same) = >>=-eq-ok (push_later p.nodes i r) _ h in
    subst IsIndexed (ok_injective same) (record {
      spans = k.spans ∙ ap suc (sym (length-push_later p.nodes i r hs done));
      ranges = k.ranges;
      stable = k.stable;
      delta = k.delta;
    })
place_node-IsIndexed p p' r none k h = subst IsIndexed (ok_injective h) (record {
  spans = omega (
    arith,
    k.spans,
    length-snoc p.incident_offsets (last_or_zero (get_last? p.incident_offsets)),
    length-snoc p.nodes (new_history r),
  );
  ranges = Ascends-last _ p.incident_offsets (omega (arith, k.spans)) k.ranges;
  stable = k.stable;
  delta = k.delta;
})

DeltaBelow-push :
    (n node index : ℕ) (m : Map ℕ (List ℕ))
    → index < n
    → DeltaBelow n m
    → DeltaBelow n (insert node (delta_of (lookup node m) ++ index ∷ []) m)
DeltaBelow-push n node index m small h i js e =
    let pushed = delta_of (lookup node m) ++ index ∷ [] in
    let at = lookup-insert node i pushed m in
    elim (Bool-cases (eqb node i)) [
      | inl q ↦
          let same : some pushed ≡ some js = ground (arith, e, at, q) in
          let is : pushed ≡ js = ground (arith, same) in
          subst (AllBelow n) is (
            All-append _ (delta_of (lookup node m)) (index ∷ []) (delta_of-AllBelow n node m h)
              (small, tt))
      | inr q ↦ h i js (ground (arith, e, at, q))
    ]

DeltaBelow-mono : (n n' : ℕ) (m : Map ℕ (List ℕ)) → n ≤ n' → DeltaBelow n m → DeltaBelow n' m
DeltaBelow-mono n n' m le h i js e = All-map _ _ js (λ j small. omega (arith, small, le)) (h i js e)

pub place_fact-IsIndexed :
    (p : MemoryProjection) (f : MemoryFact) (source target : ℕ)
    → IsIndexed p
    → IsIndexed (place_fact p f source target)
place_fact-IsIndexed p f source target k =
    let n = length p.facts in
    let n' = length (p.facts ++ f ∷ []) in
    let more : n < n' = omega (arith, length-snoc p.facts f) in
    let old = DeltaBelow-mono n n' p.incident_delta (omega (arith, more)) k.delta in
    let one = DeltaBelow-push n' source n p.incident_delta more old in
    let stable = All-map _ _ p.incident_facts (λ j small. omega (arith, small, more)) k.stable in
    elim (Bool-cases (eqb target source)) [
      | inl q ↦ rw q (record { spans = k.spans; ranges = k.ranges; stable = stable; delta = one })
      | inr q ↦ rw q (record {
        spans = k.spans;
        ranges = k.ranges;
        stable = stable;
        delta = DeltaBelow-push n' target n _ more one;
      })
    ]
