-- ===== src/Provider/Frame/Samples.antt =====
-- A frame through a writer that takes two bytes at a time and a reader with a buffer of three.
use mission_control_edge.Common.{
  ◌≡◌, refl, ℕ, suc, err, some, true, [], ◌∷◌, ◌++◌, arith, Bytes, bytes, length, min, Check, ok,
  none,
}
use mission_control_edge.Common.Int.{pos}
use mission_control_edge.Protocol.Error.{GoError, end_of_file, invalid_argument}
use mission_control_edge.Protocol.Content.{
  JsonLibrary, object, no_members, other, decode_any, reject_duplicate_keys, consume_value,
}
use mission_control_edge.Provider.RpcError.{sdk_error}
use mission_control_edge.Provider.Frame.{
  Reader, Writer, validate_maximum, has_byte, validate_envelope, read_slice, take_fragment,
  read_loop, read_frame, write_loop, validate_json, validate_object, write_frame,
}
use mission_control_edge.Provider.Frame.Writing.{Took, write_frame-Took}
use mission_control_edge.Provider.Frame.Reading.{read_frame-write_frame}

abbrev reader : Reader
reader = record { buffer = 3; ending = end_of_file }

-- The state counts the calls.
abbrev two_at_a_time : Writer ℕ
two_at_a_time = record { write = λ calls frame. (suc calls, pos (min 2 (length frame)), none) }

abbrev library : JsonLibrary
library = record {
  scan = λ content. record { tokens = other ∷ []; clean = true };
  decode = λ content. some (object no_members);
  valid = λ content. true;
  fields = λ content. some [];
  string = λ content. none;
}

abbrev content : Bytes
content = bytes "{     }"

written : write_frame library two_at_a_time 0 content 64 ≡ some (4, content ++ (10 ∷ []), ok tt)
unfolding write_frame validate_envelope validate_object write_loop validate_json validate_maximum
    decode_any has_byte reject_duplicate_keys consume_value
written = refl

read_frame-write_frame_example :
    read_frame reader 64 ((content ++ (10 ∷ [])) ++ bytes "{}") ≡ some (ok (content, bytes "{}"))
read_frame-write_frame_example =
    read_frame-write_frame library two_at_a_time 0 4 content (content ++ (10 ∷ [])) (bytes "{}") 64
      reader (omega arith) written

write_frame-Took_example :
    (after : ℕ) × (t : Bytes) × (result : Check GoError) × (write_frame library two_at_a_time 0
        content 64
      ≡ some (after, t, result))
    × Took (content ++ (10 ∷ [])) t result
write_frame-Took_example = write_frame-Took two_at_a_time library 0 content 64

cut_off : read_frame reader 64 (bytes "{") ≡ some (err (sdk_error invalid_argument))
unfolding read_frame read_loop take_fragment read_slice validate_maximum has_byte
cut_off = refl
