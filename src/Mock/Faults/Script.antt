-- ===== src/Mock/Faults/Script.antt =====
-- Each fault of a script is taken at most once.
use mathlib.Core.List.{Perm, perm_middle}
use mathlib.Core.List.Perm
use mission_control_edge.Common.{
  ◌⊎◌, ◌∙◌, ◌+◌, ◌≡◌, refl, Bool-cases, inl, inr, true, false, Option, List, [], ◌∷◌, ◌++◌, arith,
  Bytes, ok, eqb, length, bind-eq-ok, check-bind-ok, if◌then◌else◌, append_assoc, subst, ap,
}
use mission_control_edge.Protocol.Error.{GoError}
use mission_control_edge.Mock.Faults.{
  Fault, FaultStep, Faults, advance, passes_by, select_faults, apply, remaining, unused, new_faults,
  script_of, validate_fault,
}

-- The faults that were not taken yet.
unfoldable pub unused_faults : List FaultStep → List Fault
unused_faults [] = []
unused_faults (s ∷ rest) =
    let others = unused_faults rest in if s.used then others else s.fault ∷ others

length-unused_faults : (steps : List FaultStep) → unused steps ≡ length (unused_faults steps)
unfolding unused unused_faults
length-unused_faults [] = refl
length-unused_faults (s ∷ rest) = ground (arith, length-unused_faults rest)

-- One step: it stays as it is but for its count, or its fault is taken.
Kept : FaultStep → FaultStep × List Fault → Type 0
Kept s (next, now) = (now ≡ []) × (next.used ≡ s.used) × (next.fault ≡ s.fault)

Taken : FaultStep → FaultStep × List Fault → Type 0
Taken s (next, now) = (now ≡ s.fault ∷ []) × (next.used ≡ true) × (s.used ≡ false)

advance-cases :
    (point payload : Bytes) (s : FaultStep)
    → Kept s (advance point payload s) ⊎ Taken s (advance point payload s)
unfolding advance passes_by Kept Taken
advance-cases point payload s = elim (Bool-cases (passes_by point payload s)) [
  | inl by ↦ inl (rw (advance, by) (refl, refl, refl))
  | inr here ↦ elim (Bool-cases (eqb (s.seen + 1) s.fault.occurrence)) [
    | inl due ↦ inr (rw (advance, here, due) (refl, refl, ground arith))
    | inr early ↦ inl (rw (advance, here, early) (refl, refl, refl))
  ]
]

-- A step before the rest, when the rest is accounted for.
step-Perm :
    (s next : FaultStep) (now later : List Fault) (rest others : List FaultStep)
    → Kept s (next, now) ⊎ Taken s (next, now)
    → Perm (later ++ unused_faults others) (unused_faults rest)
    → Perm ((now ++ later) ++ unused_faults (next ∷ others)) (unused_faults (s ∷ rest))
unfolding unused_faults Kept Taken
step-Perm s next now later rest others (inl (e, u, f)) h = elim (Bool-cases s.used) [
  | inl used ↦ rw (e, u, used) h
  | inr free ↦
      rw (e, u, f, free)
        (Perm.trans (perm_middle later (unused_faults others)) (Perm.cons s.fault h))
]
step-Perm s next now later rest others (inr (e, u, free)) h = rw (e, u, free) (Perm.cons s.fault h)

select_faults-Perm :
    (point payload : Bytes) (steps : List FaultStep)
    → Perm
        ((select_faults point payload steps).1
          ++ unused_faults (select_faults point payload steps).0)
        (unused_faults steps)
unfolding select_faults unused_faults
select_faults-Perm point payload [] = Perm.nil
select_faults-Perm point payload (s ∷ rest) =
    let others = select_faults point payload rest in
    step-Perm s (advance point payload s).0 (advance point payload s).1 others.1 rest others.0
      (advance-cases point payload s) (select_faults-Perm point payload rest)

-- A sequence of frames at points, with the faults that `Apply` took to run.
pub apply_all : (Fault → Option GoError) → Faults → List (Bytes × Bytes) → Faults × List Fault
apply_all interrupted f [] = (f, [])
apply_all interrupted f ((point, payload) ∷ rest) =
    let (g, later) = apply_all interrupted (apply interrupted f point payload).0 rest in
    (g, (select_faults point payload f.steps).1 ++ later)

apply-steps :
    (interrupted : Fault → Option GoError) (f : Faults) (point payload : Bytes)
    → (apply interrupted f point payload).0.steps ≡ (select_faults point payload f.steps).0
unfolding apply
apply-steps interrupted f point payload = refl

apply_all-Perm :
    (interrupted : Fault → Option GoError) (f : Faults) (frames : List (Bytes × Bytes))
    → Perm
        ((apply_all interrupted f frames).1
          ++ unused_faults (apply_all interrupted f frames).0.steps)
        (unused_faults f.steps)
unfolding apply_all
apply_all-Perm interrupted f [] = Perm.refl (unused_faults f.steps)
apply_all-Perm interrupted f ((point, payload) ∷ rest) =
    let now = (select_faults point payload f.steps).1 in
    let g = (apply interrupted f point payload).0 in
    let later = apply_all interrupted g rest in
    rw (append_assoc now later.1 (unused_faults later.0.steps)) (
      Perm.trans (Perm.append_left now (apply_all-Perm interrupted g rest))
        (rw (apply-steps interrupted f point payload) (select_faults-Perm point payload f.steps)))

script_of-unused_faults :
    (values : List Fault) {steps : List FaultStep}
    → script_of values ≡ ok steps
    → unused_faults steps ≡ values
unfolding script_of unused_faults
script_of-unused_faults [] h = ground arith
script_of-unused_faults (f ∷ rest) h =
    let (_, h1) = check-bind-ok (validate_fault f) _ h in
    let (others, e, h2) = bind-eq-ok (script_of rest) _ h1 in
    ground (arith, script_of-unused_faults rest e)

-- Over any frames at any points, the faults of a script that `NewFaults` accepts which `Apply` has
-- taken to run, and those that it has not, are together exactly the faults of the script, each as
-- often as it is there; and `Remaining` is the number of the latter. A fault that was taken with others
-- does not run if one before it ends the frame with an error.
pub apply_all-new_faults :
    (interrupted : Fault → Option GoError) (values : List Fault) (frames : List (Bytes × Bytes))
    {f : Faults}
    → new_faults values ≡ ok f
    → let (g, taken) = apply_all interrupted f frames in
      Perm (taken ++ unused_faults g.steps) values × (remaining g ≡ length (unused_faults g.steps))
unfolding new_faults remaining
apply_all-new_faults interrupted values frames {f = f} h =
    let (steps, e, h1) = bind-eq-ok (script_of values) _ h in
    let same : f.steps ≡ steps = ground arith in
    (
      subst (Perm _) (ap unused_faults same ∙ script_of-unused_faults values e)
          (apply_all-Perm interrupted f frames),
      length-unused_faults (apply_all interrupted f frames).0.steps,
    )
