-- ===== src/Provider/Frame/Ending.antt =====
-- The loop of readFrame ends on every stream.
use mission_control_edge.Common.{
  ℕ, zero, suc, ◌+◌, ◌≤◌, ◌<◌, ◌≡◌, refl, sym, ◌∙◌, ap, inl, inr, true, false, ◌||◌, Option, some,
  [], ◌∷◌, ◌++◌, length, is_empty, eqb, ltb, if◌then◌else◌, arith, Bool-cases, check-cases, Bytes,
  Outcome, ok, err,
}
use mission_control_edge.Protocol.Error.{GoError, invalid_argument, message_too_large}
use mission_control_edge.Provider.RpcError.{sdk_error}
use mission_control_edge.Provider.Frame.{
  Reader, Fragment, Signal, terminated, buffer_full, ended, after_byte, read_slice, read_loop,
  take_fragment, read_frame, has_byte, at_end, validate_maximum,
}

slice-here :
    (k b : ℕ) (bs : Bytes)
    → eqb b 10 ≡ true
    → read_slice (suc k) (b ∷ bs) ≡ record { payload = []; signal = terminated; rest = bs }
unfolding read_slice
slice-here k b bs h = rw h refl

slice-later :
    (k b : ℕ) (bs : Bytes)
    → eqb b 10 ≡ false
    → read_slice (suc k) (b ∷ bs) ≡ after_byte b (read_slice k bs)
unfolding read_slice
slice-later k b bs h = rw h refl

ended-not-full : ¬ (ended ≡ buffer_full)
ended-not-full h = cc

terminated-not-full : ¬ (terminated ≡ buffer_full)
terminated-not-full h = cc

-- A full buffer has taken its size from the stream.
read_slice-full :
    (k : ℕ) (input : Bytes)
    → (read_slice k input).signal ≡ buffer_full
    → length (read_slice k input).rest + k ≡ length input
unfolding read_slice
read_slice-full zero input h = omega arith
read_slice-full (suc k) [] h = absurd (ended-not-full h)
read_slice-full (suc k) (b ∷ bs) h = elim (Bool-cases (eqb b 10)) [
  | inl newline ↦
      absurd (terminated-not-full (sym (ap (λ f. f.signal) (slice-here k b bs newline)) ∙ h))
  | inr other ↦
      let later = slice-later k b bs other in
      let ih = read_slice-full k bs (sym (ap (λ f. f.signal) later) ∙ h) in
      omega (arith, ih, ap (λ f. length f.rest) later)
]

Ends : Option (Outcome GoError (Bytes × Bytes)) → Type 0
Ends o = (r : Outcome GoError (Bytes × Bytes)) × (o ≡ some r)

signal-Ends :
    (ending : GoError) (whole rest : Bytes) (signal : Signal)
    (next : Option (Outcome GoError (Bytes × Bytes)))
    → (signal ≡ buffer_full → Ends next)
    → Ends (elim signal [
      | terminated ↦
          if is_empty whole || has_byte 13 whole
          then some (err (sdk_error invalid_argument))
          else some (ok (whole, rest))
      | buffer_full ↦ next
      | ended ↦ some (err (at_end ending whole))
    ])
unfolding Ends
signal-Ends ending whole rest buffer_full next h = h refl
signal-Ends ending whole rest ended next h = (err (at_end ending whole), refl)
signal-Ends ending whole rest terminated next h =
    elim (Bool-cases (is_empty whole || has_byte 13 whole)) [
      | inl bad ↦ (err (sdk_error invalid_argument), rw bad refl)
      | inr good ↦ (ok (whole, rest), rw good refl)
    ]

take_fragment-Ends :
    (maximum : ℕ) (ending : GoError) (frame : Bytes) (f : Fragment)
    (next : Option (Outcome GoError (Bytes × Bytes)))
    → (f.signal ≡ buffer_full → Ends next)
    → Ends (take_fragment maximum ending frame f next)
unfolding take_fragment Ends
take_fragment-Ends maximum ending frame f next h =
    elim (Bool-cases (ltb maximum (length frame + length f.payload))) [
      | inl large ↦ (err (sdk_error message_too_large), rw large refl)
      | inr small ↦ rw small (signal-Ends ending (frame ++ f.payload) f.rest f.signal next h)
    ]

read_loop-Ends :
    (n : ℕ) (reader : Reader) (maximum : ℕ) (frame input : Bytes)
    → length input < n
    → 1 ≤ reader.buffer
    → Ends (read_loop n reader maximum frame input)
unfolding read_loop
read_loop-Ends zero reader maximum frame input h buffer = absurd (omega (arith, h))
read_loop-Ends (suc n) reader maximum frame input h buffer =
    let f = read_slice reader.buffer input in
    take_fragment-Ends maximum reader.ending frame f
      (read_loop n reader maximum (frame ++ f.payload) f.rest)
      (λ full.
        read_loop-Ends n reader maximum (frame ++ f.payload) f.rest
          (omega (arith, h, buffer, read_slice-full reader.buffer input full)) buffer)

-- On every stream, the turns of the loop never run out: the call gives a frame or an error.
pub read_frame-ends :
    (reader : Reader) (maximum : ℕ) (input : Bytes)
    → 1 ≤ reader.buffer
    → (r : Outcome GoError (Bytes × Bytes)) × (read_frame reader maximum input ≡ some r)
unfolding read_frame Ends
read_frame-ends reader maximum input buffer = elim (check-cases (validate_maximum maximum)) [
  | inl valid ↦
      rw (read_frame, valid)
        (read_loop-Ends (suc (length input)) reader maximum [] input (omega arith) buffer)
  | inr (e, invalid) ↦ (err e, rw (read_frame, invalid) refl)
]
