-- ===== src/Examples/Serialized.antt =====
-- Values written by their types, at concrete inputs.
use ads_go.Base.{
  ℕ, ◌^◌, ◌≡◌, refl, List, [], ◌∷◌, ◌++◌, none, ok, err, panic, length, arith, take, ◌==◌,
  if◌then◌else◌, unsupported_data_type, response_timeout,
}
use ads_go.Base.Integer.{pos, negsuc}
use ads_go.Wire.{Bytes, le_value}
use ads_go.AdsHeader.Accepts.{success_image}
use ads_go.Symbol.{AdsSymbol}
use ads_go.Symbol.RoundTrip.{symbol_image}
use ads_go.AdsTypes.{
  AdsArrayInfo, AdsTypeFields, AdsDataType, ads_type, no_sub_items, fields_of, sub_items_of,
}
use ads_go.Serializer.Value.{Value, int, int16, string, slice, no_values, value, no_fields, field}
use ads_go.Serializer.Convert.{
  FloatConversions, to_int8, to_uint8, to_int16, to_uint16, to_int32, to_uint32, to_int64,
  to_uint64,
}
use ads_go.Serializer.Write.{serialize}
use ads_go.Serializer.Read.{deserialize}
use ads_go.Serializer.Typed.{
  IsTyped, scalar_typed, struct_typed, field_typed, none_typed, of_int16, type_width,
}
use ads_go.Serializer.RoundTrip.{deserialize-serialize}
use ads_go.Serializer.Ranges.{SignedResult, UnsignedResult, number, conversions_in_range}
use ads_go.Serializer.Refusals.{
  serialize_short_array, serialize_struct_array, deserialize-serialize_wstring,
}
use ads_go.Client.Commands.{AdsCommandRequest, Action}
use ads_go.Client.Commands.Memory.{Memory}
use ads_go.Client.Notifications.{Time}
use ads_go.Client.Poller.{Poller}
use ads_go.Examples.Calls.{Cells, memory}
use ads_go.Examples.Types.{pair_built, type_answer}

abbrev floats : FloatConversions
floats = record {
  narrow = λ n. n;
  widen = λ n. n;
  int_to_float32 = λ z. 0;
  int_to_float64 = λ z. 0;
}

abbrev bytes_as_runes : Bytes → List ℕ
bytes_as_runes text = text

abbrev pair_value : Value
pair_value =
    Value.map (field (b'x' ∷ []) (int16 (pos 5)) (field (b'y' ∷ []) (int16 (negsuc 2)) no_fields))

pair-IsTyped : IsTyped pair_built pair_value
pair-IsTyped = struct_typed refl (omega arith) (
    field_typed (omega arith) (refl, tt) (scalar_typed refl (of_int16 (pos 5) refl (omega arith)))
      (field_typed (omega arith) tt (scalar_typed refl (of_int16 (negsuc 2) refl (omega arith)))
        (none_typed (omega arith))))

deserialize-serialize_example :
    (b : Bytes) × (serialize floats bytes_as_runes pair_built pair_value ≡ ok b)
    × (length b ≡ type_width pair_built)
    × (deserialize pair_built ([] ++ (b ++ (9 ∷ []))) ≡ ok pair_value)
deserialize-serialize_example =
    deserialize-serialize floats bytes_as_runes pair_built pair_value [] (9 ∷ []) pair-IsTyped refl

conversions_in_range_example :
    SignedResult (2 ^ 7) (to_int8 (int (pos 200))) (number (int (pos 200)))
    × UnsignedResult (2 ^ 8) (to_uint8 (int (pos 200))) (number (int (pos 200)))
    × SignedResult (2 ^ 15) (to_int16 (int (pos 200))) (number (int (pos 200)))
    × UnsignedResult (2 ^ 16) (to_uint16 (int (pos 200))) (number (int (pos 200)))
    × SignedResult (2 ^ 31) (to_int32 (int (pos 200))) (number (int (pos 200)))
    × UnsignedResult (2 ^ 32) (to_uint32 (int (pos 200))) (number (int (pos 200)))
    × SignedResult (2 ^ 63) (to_int64 (int (pos 200))) (number (int (pos 200)))
    × UnsignedResult (2 ^ 64) (to_uint64 (int (pos 200))) (number (int (pos 200)))
conversions_in_range_example = conversions_in_range (int (pos 200)) (omega arith)

abbrev two : AdsArrayInfo
two = record { start_index = pos 0; entries = 2 }

-- Arrays of two pairs and of two integers, and a wide string.
abbrev of_type : ℕ → List AdsArrayInfo → AdsTypeFields
of_type code infos = record (fields_of pair_built) { data_type = code; array_info = infos }

serialize_struct_array_example :
    serialize floats bytes_as_runes
      (ads_type (of_type 65 (two ∷ [])) (sub_items_of pair_built))
      (slice (value pair_value no_values))
    ≡ err (unsupported_data_type 65)
serialize_struct_array_example =
    serialize_struct_array floats bytes_as_runes (of_type 65 (two ∷ [])) two _ _ pair_value
      no_values refl refl (omega arith)

serialize_short_array_example :
    serialize floats bytes_as_runes
      (ads_type (of_type 2 (two ∷ [])) no_sub_items)
      (slice (value (int16 (pos 1)) no_values))
    ≡ panic
serialize_short_array_example =
    serialize_short_array floats bytes_as_runes (of_type 2 (two ∷ [])) two
      (value (int16 (pos 1)) no_values) refl (of_int16 (pos 1) refl (omega arith), tt) (omega arith)

deserialize-serialize_wstring_example :
    (b : Bytes) × (serialize floats bytes_as_runes
        (ads_type (of_type 31 []) no_sub_items)
        (string (b'H' ∷ b'i' ∷ []))
      ≡ ok b)
    × (length b ≡ 4)
    × (deserialize (ads_type (of_type 31 []) no_sub_items) ([] ++ b) ≡ ok (string (b'H' ∷ [])))
deserialize-serialize_wstring_example =
    deserialize-serialize_wstring floats bytes_as_runes (of_type 31 []) (b'H' ∷ b'i' ∷ []) [] b'H'
      (b'i' ∷ []) refl refl refl (omega arith) (omega arith) (omega arith) refl

abbrev noon : Time
noon = record { seconds = pos 43200; nanos = 0 }

abbrev pair_symbol : AdsSymbol
pair_symbol = record {
  index_group = 16448;
  index_offset = 4;
  size = 4;
  data_type = 65;
  flags = 0;
  name_length = 1;
  type_length = 1;
  comment_length = 0;
  name = b'v' ∷ [];
  type_name = b'P' ∷ [];
  comment = [];
  array_info = [];
  type_guid = [];
  attributes = [];
}

-- Memory cells with a symbol of the pair's type.
abbrev described_answer : AdsCommandRequest → Bytes
described_answer request =
    if le_value (take 4 request.data_bytes) == 61449
    then success_image (symbol_image 60 pair_symbol [])
    else type_answer request

abbrev pair_device : AdsCommandRequest → Action Cells Bytes
pair_device request cells =
    if request.command == 9 then (ok (described_answer request), cells) else memory request cells

abbrev unwatched : Poller
unwatched = record {
  current_state = none;
  state_poller_id = 0;
  timer = none;
  extended_state_supported = none;
  last_restart_index = none;
  consecutive_read_failures = 0;
}

abbrev lost : Bytes → Action Cells AdsDataType
lost name s = (err response_timeout, s)
