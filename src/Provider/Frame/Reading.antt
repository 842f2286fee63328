-- ===== src/Provider/Frame/Reading.antt =====
-- A frame that was written is read back.
use mission_control_edge.Common.{
  ℕ, zero, suc, ◌+◌, ◌≤◌, ◌<◌, ◌≡◌, refl, sym, ◌∙◌, ap, subst, inl, inr, false, ◌||◌, Option, some,
  [], ◌∷◌, ◌++◌, length, take, drop, is_empty, eqb, ltb, length-drop, length-take, length-append,
  take-append-drop, append_assoc, arith, Bool-cases, or-eq-false, Bytes, Outcome, ok, check-bind-ok,
  reject_if-bind-ok, reject_if-eq-ok,
}
use mission_control_edge.Protocol.Error.{GoError}
use mission_control_edge.Protocol.Content.{JsonLibrary}
use mission_control_edge.Provider.Frame.{
  Reader, Fragment, terminated, buffer_full, after_byte, read_slice, read_loop, take_fragment,
  read_frame, has_byte, validate_maximum, validate_envelope, Writer, write_frame,
}
use mission_control_edge.Provider.Frame.Writing.{write_frame-whole}

-- A line that fits the buffer.
read_slice-fits :
    (k : ℕ) (line rest : Bytes)
    → has_byte 10 line ≡ false
    → length line < k
    → read_slice k (line ++ (10 ∷ rest))
      ≡ record { payload = line; signal = terminated; rest = rest }
unfolding read_slice has_byte
read_slice-fits zero line rest clean h = absurd (omega (arith, h))
read_slice-fits (suc k) [] rest clean h = refl
read_slice-fits (suc k) (b ∷ bs) rest clean h =
    let (here, later) = or-eq-false (eqb b 10) (has_byte 10 bs) clean in
    rw here (ap (after_byte b) (read_slice-fits k bs rest later (omega (arith, h))))

-- A line that fills it.
read_slice-fills :
    (k : ℕ) (line rest : Bytes)
    → has_byte 10 line ≡ false
    → k ≤ length line
    → read_slice k (line ++ (10 ∷ rest))
      ≡ record { payload = take k line; signal = buffer_full; rest = drop k line ++ (10 ∷ rest) }
unfolding read_slice has_byte
read_slice-fills zero line rest clean h = refl
read_slice-fills (suc k) [] rest clean h = absurd (omega (arith, h))
read_slice-fills (suc k) (b ∷ bs) rest clean h =
    let (here, later) = or-eq-false (eqb b 10) (has_byte 10 bs) clean in
    rw here (ap (after_byte b) (read_slice-fills k bs rest later (omega (arith, h))))

has_byte-append : (b : ℕ) (xs ys : Bytes) → has_byte b (xs ++ ys) ≡ (has_byte b xs || has_byte b ys)
unfolding has_byte
has_byte-append b [] ys = refl
has_byte-append b (x ∷ xs) ys = ground (arith, has_byte-append b xs ys)

has_byte-drop : (b k : ℕ) (xs : Bytes) → has_byte b xs ≡ false → has_byte b (drop k xs) ≡ false
unfolding has_byte
has_byte-drop b zero xs h = h
has_byte-drop b (suc k) [] h = h
has_byte-drop b (suc k) (x ∷ xs) h =
    has_byte-drop b k xs (or-eq-false (eqb x b) (has_byte b xs) h).1

fits-ltb : (maximum size : ℕ) → size ≤ maximum → ltb maximum size ≡ false
fits-ltb maximum size h = ground arith

longer : (k size : ℕ) → ltb size k ≡ false → k ≤ size
longer k size h = ground arith

-- One turn of the loop, on the fragment that is read.
read_loop-turn :
    (n : ℕ) (reader : Reader) (maximum : ℕ) (frame input : Bytes) (f : Fragment)
    → read_slice reader.buffer input ≡ f
    → read_loop (suc n) reader maximum frame input
      ≡ take_fragment maximum reader.ending frame f
          (read_loop n reader maximum (frame ++ f.payload) f.rest)
unfolding read_loop
read_loop-turn n reader maximum frame input f e =
    ap
      (λ g.
        take_fragment maximum reader.ending frame g
          (read_loop n reader maximum (frame ++ g.payload) g.rest))
      e

-- The last fragment of a line, and one before it.
take_fragment-last :
    (maximum : ℕ) (ending : GoError) (frame line rest : Bytes)
    (next : Option (Outcome GoError (Bytes × Bytes)))
    → length frame + length line ≤ maximum
    → (is_empty (frame ++ line) || has_byte 13 (frame ++ line)) ≡ false
    → take_fragment maximum ending frame
        (record { payload = line; signal = terminated; rest = rest })
        next
      ≡ some (ok (frame ++ line, rest))
unfolding take_fragment
take_fragment-last maximum ending frame line rest next small whole =
    rw (fits-ltb maximum (length frame + length line) small, whole) refl

take_fragment-more :
    (maximum : ℕ) (ending : GoError) (frame line rest : Bytes)
    (next : Option (Outcome GoError (Bytes × Bytes)))
    → length frame + length line ≤ maximum
    → take_fragment maximum ending frame
        (record { payload = line; signal = buffer_full; rest = rest })
        next
      ≡ next
unfolding take_fragment
take_fragment-more maximum ending frame line rest next small =
    rw (fits-ltb maximum (length frame + length line) small) refl

-- The rest of a line is read after the part of it that stands in `frame`.
read_loop-line :
    (n : ℕ) (reader : Reader) (maximum : ℕ) (frame line rest : Bytes)
    → length line < n
    → 1 ≤ reader.buffer
    → length frame + length line ≤ maximum
    → has_byte 10 line ≡ false
    → (is_empty (frame ++ line) || has_byte 13 (frame ++ line)) ≡ false
    → read_loop n reader maximum frame (line ++ (10 ∷ rest)) ≡ some (ok (frame ++ line, rest))
read_loop-line zero reader maximum frame line rest h buffer small clean whole =
    absurd (omega (arith, h))
read_loop-line (suc n) reader maximum frame line rest h buffer small clean whole =
    elim (Bool-cases (ltb (length line) reader.buffer)) [
      | inl fits ↦
          read_loop-turn n reader maximum frame (line ++ (10 ∷ rest)) _
            (read_slice-fits reader.buffer line rest clean (ground arith))
          ∙ take_fragment-last maximum reader.ending frame line rest _ small whole
      | inr fills ↦
          let k = reader.buffer in
          let joined =
            append_assoc frame (take k line) (drop k line)
            ∙ ap (λ l. frame ++ l) (take-append-drop k line) in
          read_loop-turn n reader maximum frame (line ++ (10 ∷ rest)) _
            (read_slice-fills k line rest clean (ground arith))
          ∙ take_fragment-more maximum reader.ending frame (take k line)
              (drop k line ++ (10 ∷ rest)) _ (omega (arith, length-take k line, small))
          ∙ read_loop-line n reader maximum (frame ++ take k line) (drop k line) rest
              (omega (arith, length-drop k line, buffer, h, longer k (length line) fills)) buffer
              (omega (
                arith,
                length-append frame (take k line),
                length-take k line,
                length-drop k line,
                small,
              ))
              (has_byte-drop 10 k line clean)
              (subst (λ l. (is_empty l || has_byte 13 l) ≡ false) (sym joined) whole)
          ∙ ap (λ l. some (ok (l, rest))) joined
    ]

valid-parts :
    (content : Bytes) (maximum : ℕ)
    → validate_envelope content maximum ≡ ok tt
    → (validate_maximum maximum ≡ ok tt)
      × (has_byte 10 content ≡ false)
      × ((is_empty content || has_byte 13 content) ≡ false)
      × (length content ≤ maximum)
unfolding validate_envelope
valid-parts content maximum h =
    let (fits, h) = check-bind-ok (validate_maximum maximum) _ h in
    let (filled, h) = reject_if-bind-ok (is_empty content) _ _ h in
    let (small, h) = reject_if-bind-ok (ltb maximum (length content)) _ _ h in
    let clean = reject_if-eq-ok (has_byte 10 content || has_byte 13 content) _ h in
    (fits, ground arith, ground arith, longer (length content) maximum small)

-- A frame that the writer took whole is read back from the stream, whatever follows it and however
-- small the buffer is: exactly the content, with exactly the bytes after it still to come.
pub read_frame-write_frame :
    {W : Type 0} (library : JsonLibrary) (writer : Writer W) (w after : W)
    (content taken rest : Bytes) (maximum : ℕ) (reader : Reader)
    → 1 ≤ reader.buffer
    → write_frame library writer w content maximum ≡ some (after, taken, ok tt)
    → read_frame reader maximum (taken ++ rest) ≡ some (ok (content, rest))
unfolding read_frame
read_frame-write_frame library writer w after content taken rest maximum reader buffer h =
    let (valid, whole) = write_frame-whole writer library w after content taken maximum h in
    let (maximum_fits, clean, filled, fits) = valid-parts content maximum valid in
    subst (λ l. read_frame reader maximum (l ++ rest) ≡ some (ok (content, rest))) (sym whole)
      (subst (λ l. read_frame reader maximum l ≡ some (ok (content, rest)))
        (sym (append_assoc content (10 ∷ []) rest))
        (rw (read_frame, maximum_fits)
          (read_loop-line (suc (length (content ++ (10 ∷ rest)))) reader maximum [] content rest
            (omega (arith, length-append content (10 ∷ rest))) buffer (omega (arith, fits)) clean
            filled)))
