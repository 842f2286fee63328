-- ===== src/Mock/Faults/Conservation.antt =====
-- Faults that only delay and reorder lose no frame and invent none.
use mission_control_edge.Common.{
  ◌+◌, ◌≡◌, ◌∙◌, refl, sym, ap, ◌⊎◌, inl, inr, Bool, true, false, Option, List, [], ◌∷◌, ◌++◌,
  arith, Bytes, bytes_eq, bytes_beq_iff, ok, All,
}
use mission_control_edge.Common.Assoc.{Assoc, insert, remove, lookup-insert, lookup-remove}
use mission_control_edge.Common.Multiset.{count, count-append}
use mission_control_edge.Protocol.Error.{GoError}
use mission_control_edge.Mock.Faults.{
  Fault, FaultAction, delay, backpressure, out_of_order, Faults, held, run_faults, select_faults,
  apply, flush,
}

-- The actions that keep the frames.
abbrev pub reorders : FaultAction → Bool
reorders delay = true
reorders backpressure = true
reorders out_of_order = true
reorders _ = false

held-insert :
    (point : Bytes) (frames : List Bytes) (pending : Assoc Bytes (List Bytes))
    → held point (insert point frames pending) ≡ frames
held-insert point frames pending =
    ground (arith, lookup-insert point point frames pending, bytes_beq_iff point point)

held-remove :
    (point : Bytes) (pending : Assoc Bytes (List Bytes)) → held point (remove point pending) ≡ []
held-remove point pending =
    ground (arith, lookup-remove point point pending, bytes_beq_iff point point)

module _ (interrupted : Fault → Option GoError) (point : Bytes) where
  -- A fault that keeps the frames passes them on, or holds them all back.
  run_faults-cases :
      (pending : Assoc Bytes (List Bytes)) (frames : List Bytes) (f : Fault) (rest : List Fault)
      (action : FaultAction) {out : List Bytes}
      → f.action ≡ action
      → reorders action ≡ true
      → (run_faults interrupted pending point frames (f ∷ rest)).1 ≡ ok out
      → (run_faults interrupted pending point frames (f ∷ rest)
          ≡ run_faults interrupted pending point frames rest)
        ⊎ (run_faults interrupted pending point frames (f ∷ rest)
            ≡ run_faults interrupted
                (insert point (held point pending ++ frames) pending)
                point
                []
                rest)
  unfolding run_faults
  run_faults-cases pending frames f rest delay e r h = inl (ground arith)
  run_faults-cases pending frames f rest backpressure e r h = inl (ground arith)
  run_faults-cases pending frames f rest out_of_order e r h = inr (ground arith)
  run_faults-cases pending frames f rest _ e r h = cc

  run_faults-count :
      (pending : Assoc Bytes (List Bytes)) (frames : List Bytes) (now : List Fault)
      {out : List Bytes} (z : Bytes)
      → All (λ f. reorders f.action ≡ true) now
      → (run_faults interrupted pending point frames now).1 ≡ ok out
      → count z out + count z (held point (run_faults interrupted pending point frames now).0)
        ≡ count z frames + count z (held point pending)
  unfolding run_faults
  run_faults-count pending frames [] z a h = ground arith
  run_faults-count pending frames (f ∷ rest) z a h =
      elim (run_faults-cases pending frames f rest f.action refl a.0 h) [
        | inl e ↦ rw e (run_faults-count pending frames rest z a.1 (ap (λ p. p.1) (sym e) ∙ h))
        | inr e ↦
            let kept =
              run_faults-count (insert point (held point pending ++ frames) pending) [] rest z a.1
                (ap (λ p. p.1) (sym e) ∙ h) in
            rw e (
              ground (
                arith,
                kept,
                held-insert point (held point pending ++ frames) pending,
                count-append z (held point pending) frames,
              ))
      ]

  -- When the faults that run now only wait and reorder, and no wait is interrupted, every frame that
  -- came in or was held is put out or held, and as often as before; a flush gives up all that is held.
  pub apply-count :
      (f : Faults) (payload : Bytes) {out : List Bytes} (z : Bytes)
      → All (λ fault. reorders fault.action ≡ true) (select_faults point payload f.steps).1
      → (apply interrupted f point payload).1 ≡ ok out
      → count z out + count z (flush (apply interrupted f point payload).0 point).1
        ≡ count z (payload ∷ (flush f point).1)
  unfolding apply flush
  apply-count f payload z a h =
      let kept =
        run_faults-count (remove point f.pending) (payload ∷ held point f.pending)
          (select_faults point payload f.steps).1 z a h in
      ground (arith, kept, held-remove point f.pending)
