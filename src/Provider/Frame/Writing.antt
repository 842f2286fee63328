-- ===== src/Provider/Frame/Writing.antt =====
-- The loop of writeFrame ends for every writer, and what the writer took is a part of the frame.
use mission_control_edge.Common.{
  ℕ, zero, suc, ◌≤◌, ◌≡◌, refl, sym, ◌∙◌, ap, subst, ◌⊎◌, inl, inr, false, ◌||◌, Option, some, [],
  ◌∷◌, ◌++◌, length, take, drop, length-drop, length-append, take-append-drop, append_assoc,
  append_nil, arith, Bool-cases, Option-cases, outcome-cases, Bytes, ok, err, Check, ◌>>◌, or_else,
  check-bind-ok,
}
use mission_control_edge.Common.Int.{ℤ, pos, negsuc, pos_part, leb_ℤ, ltb_ℤ}
use mission_control_edge.Protocol.Error.{GoError, invalid_argument, short_write}
use mission_control_edge.Protocol.Content.{JsonLibrary}
use mission_control_edge.Provider.RpcError.{sdk_error}
use mission_control_edge.Provider.Frame.{
  Writer, write_loop, write_frame, validate_envelope, validate_object,
}

-- The bytes that a writer took of a frame, and the result: all of them, or an error.
pub Took : Bytes → Bytes → Check GoError → Type 0
Took frame taken result =
    ((result ≡ ok tt) × (taken ≡ frame))
    ⊎ ((e : GoError) × (left : Bytes) × (result ≡ err e) × (taken ++ left ≡ frame))

-- A count that the loop accepts.
counted :
    (written : ℤ) (size : ℕ)
    → (leb_ℤ written (pos 0) || ltb_ℤ (pos size) written) ≡ false
    → (1 ≤ pos_part written) × (pos_part written ≤ size)
counted (pos n) size h = ground arith
counted (negsuc n) size h = absurd (ground arith)

ok-not-err : {e : GoError} → ¬ (◌≡◌ {A = Check GoError} (ok tt) (err e))
ok-not-err h = cc

-- The parts of an answer.
some-taken :
    {W : Type 0} {w v : W} {s t : Bytes} {r q : Check GoError}
    → ◌≡◌ {A = Option (W × Bytes × Check GoError)} (some (w, s, r)) (some (v, t, q))
    → s ≡ t
some-taken h = cc

some-result :
    {W : Type 0} {w v : W} {s t : Bytes} {r q : Check GoError}
    → ◌≡◌ {A = Option (W × Bytes × Check GoError)} (some (w, s, r)) (some (v, t, q))
    → r ≡ q
some-result h = cc

module _ {W : Type 0} (writer : Writer W) where
  write_loop-Took :
      (n : ℕ) (w : W) (taken frame : Bytes)
      → length frame ≤ n
      → (after : W) × (t : Bytes) × (result : Check GoError) × (write_loop n writer w taken frame
          ≡ some (after, t, result))
        × Took (taken ++ frame) t result
  unfolding write_loop Took
  write_loop-Took n w taken [] h = (w, taken, ok tt, refl, inl (refl, sym (append_nil taken)))
  write_loop-Took zero w taken (b ∷ bs) h = absurd (omega (arith, h))
  write_loop-Took (suc n) w taken (b ∷ bs) h =
      let (after, written, failed) = writer.write w (b ∷ bs) in
      let count = pos_part written in
      elim (Option-cases failed) [
        | inr (e, failure) ↦
            (after, taken, err e, rw (write_loop, failure) refl, inr (e, b ∷ bs, refl, refl))
        | inl fine ↦
            elim (Bool-cases (leb_ℤ written (pos 0) || ltb_ℤ (pos (length (b ∷ bs))) written)) [
              | inl bad ↦ (
                after,
                taken,
                err short_write,
                rw (write_loop, fine, bad) refl,
                inr (short_write, b ∷ bs, refl, refl),
              )
              | inr good ↦
                  let fits = counted written (length (b ∷ bs)) good in
                  let (last, t, result, same, took) =
                    write_loop-Took n after (taken ++ take count (b ∷ bs)) (drop count (b ∷ bs))
                      (omega (arith, length-drop count (b ∷ bs), fits, h)) in
                  (
                    last,
                    t,
                    result,
                    rw (write_loop, fine, good) same,
                    subst (λ f. Took f t result)
                        (append_assoc taken (take count (b ∷ bs)) (drop count (b ∷ bs))
                          ∙ ap (λ l. taken ++ l) (take-append-drop count (b ∷ bs)))
                        took,
                  )
            ]
      ]

  -- For every writer, however few bytes it takes at a time, the turns of the loop never run out; the
  -- call ends with all of the frame taken and no error, or with an error and a part of it.
  pub write_frame-Took :
      (library : JsonLibrary) (w : W) (content : Bytes) (maximum : ℕ)
      → (after : W) × (t : Bytes) × (result : Check GoError) × (write_frame library writer w content
            maximum
          ≡ some (after, t, result))
        × Took (content ++ (10 ∷ [])) t result
  unfolding write_frame Took
  write_frame-Took library w content maximum =
      elim (outcome-cases (
        validate_envelope content maximum
        >> or_else (validate_object library content) (sdk_error invalid_argument))) [
          | inl (_, valid) ↦
              rw (write_frame, valid)
                (write_loop-Took (suc (length content)) w [] (content ++ (10 ∷ []))
                  (omega (arith, length-append content (10 ∷ []))))
          | inr (e, invalid) ↦ (
            w,
            [],
            err e,
            rw (write_frame, invalid) refl,
            inr (e, content ++ (10 ∷ []), refl, refl),
          )
        ]

  write_frame-refused :
      (library : JsonLibrary) (w : W) (content : Bytes) (maximum : ℕ) (e : GoError)
      → (validate_envelope content maximum
          >> or_else (validate_object library content) (sdk_error invalid_argument))
        ≡ err e
      → write_frame library writer w content maximum ≡ some (w, [], err e)
  unfolding write_frame
  write_frame-refused library w content maximum e h = rw (write_frame, h) refl

  result-whole :
      (frame t : Bytes) (result : Check GoError) → Took frame t result → result ≡ ok tt → t ≡ frame
  unfolding Took
  result-whole frame t result (inl (_, whole)) h = whole
  result-whole frame t result (inr (e, left, failed, _)) h = absurd (ok-not-err (sym h ∙ failed))

  -- A call without an error.
  pub write_frame-whole :
      (library : JsonLibrary) (w after : W) (content taken : Bytes) (maximum : ℕ)
      → write_frame library writer w content maximum ≡ some (after, taken, ok tt)
      → (validate_envelope content maximum ≡ ok tt) × (taken ≡ content ++ (10 ∷ []))
  unfolding write_frame
  write_frame-whole library w after content taken maximum h =
      let (_, t, result, same, took) = write_frame-Took library w content maximum in
      let equal = sym same ∙ h in
      elim (outcome-cases (
        validate_envelope content maximum
        >> or_else (validate_object library content) (sdk_error invalid_argument))) [
          | inl (x, valid) ↦ (
            (check-bind-ok (validate_envelope content maximum) _ valid).0,
            subst (λ l. l ≡ content ++ (10 ∷ [])) (some-taken equal)
                (result-whole (content ++ (10 ∷ [])) t result took (some-result equal)),
          )
          | inr (e, invalid) ↦ absurd (
              ok-not-err (
                sym (
                  some-result (sym (write_frame-refused library w content maximum e invalid) ∙ h))))
        ]
