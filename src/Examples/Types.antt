-- ===== src/Examples/Types.antt =====
-- Types on a device, their values, and symbols read and written at concrete inputs.
use ads_go.Base.{
  ℕ, suc, ◌^◌, ◌≡◌, ◌<◌, ◌≤◌, refl, ap, subst, ◌∙◌, Bool, true, false, List, [], ◌∷◌, ◌++◌, Option,
  none, some, ok, err, panic, drop, take, length, arith, if◌then◌else◌, All, ads_error,
  response_timeout,
}
use ads_go.Base.Integer.{pos}
use ads_go.Wire.{Bytes, le_bytes, make_bytes}
use ads_go.AdsHeader.Accepts.{success_image, strip_ads_header_answers}
use ads_go.Requests.{build_read_write_request_with_null_terminator}
use ads_go.DataType.Types.{ArrayInfo, TypeFields, DataType, described, no_items, item}
use ads_go.DataType.Parse.{parse_nested, parse_data_type}
use ads_go.DataType.Image.{response_image, Skipped, IsFields, IsArrayEntry, IsWireType}
use ads_go.DataType.RoundTrip.{parse_data_type-image}
use ads_go.DataType.Ends.{parse_nested_ends}
use ads_go.AdsTypes.{AdsDataType, ads_type, no_sub_items, sub_item, fields_of}
use ads_go.Serializer.Value.{same_bytes}
use ads_go.Client.Commands.{AdsCommandRequest, Action}
use ads_go.Client.DataTypes.{convert_data_type, placed, root_named, get_data_type}
use ads_go.Client.DataTypes.Refines.{get_data_type-Built, Built-get_data_type, get_data_type_cyclic}
use ads_go.Client.DataTypes.Built.{
  Table, Built, plain, struct, part, no_parts, height, type_request, TypeServer,
}

-- A declaration without flags, of an array or not.
-- Beside what is read of a type: a mask, two entries of methods and a GUID, where they are announced.
abbrev sent : TypeFields → Skipped
sent t = record {
  mask = make_bytes t.size;
  methods = (1 ∷ 2 ∷ 3 ∷ []) ∷ (4 ∷ []) ∷ [];
  type_guids = make_bytes 16 ∷ [];
}

abbrev declared_array : List ArrayInfo → Bytes → Bytes → ℕ → ℕ → ℕ → TypeFields
declared_array infos name type_name size offset code = record {
  name = name;
  type_name = type_name;
  version = 1;
  hash_value = 0;
  type_hash = 0;
  size = size;
  offset = offset;
  data_type = code;
  flags = 0;
  array_dim = length infos;
  comment = [];
  array_info = infos;
  enum_info = [];
  attributes = [];
  methods = [];
  guid = [];
  extended_flags = 0;
  copy_mask = 0;
}

abbrev pub declared : Bytes → Bytes → ℕ → ℕ → ℕ → TypeFields
declared = declared_array []

declared_array-IsFields :
    (infos : List ArrayInfo) (name type_name : Bytes) (size offset code : ℕ)
    → All IsArrayEntry infos
    → length infos < 2 ^ 16
    → length name < 65535
    → length type_name < 65535
    → size < 2 ^ 32
    → offset < 2 ^ 32
    → code < 2 ^ 32
    → IsFields sent (declared_array infos name type_name size offset code)
declared_array-IsFields infos name type_name size offset code all few a b c d e = record {
  version_word = omega arith;
  hash_word = omega arith;
  type_hash_word = omega arith;
  size_word = c;
  offset_word = d;
  data_type_word = e;
  flags_word = omega arith;
  name_short = a;
  type_short = b;
  comment_short = omega arith;
  dims_short = few;
  dims = refl;
  arrays = all;
  guid_block = refl;
  attribute_block = refl;
  enum_block = refl;
  flags_block = refl;
  mask_block = tt;
  method_block = tt;
  deref_block = tt;
  methods_empty = refl;
  mask_zero = refl;
}

declared-IsFields :
    (name type_name : Bytes) (size offset code : ℕ)
    → length name < 65535
    → length type_name < 65535
    → size < 2 ^ 32
    → offset < 2 ^ 32
    → code < 2 ^ 32
    → IsFields sent (declared name type_name size offset code)
declared-IsFields name type_name size offset code =
    declared_array-IsFields [] name type_name size offset code tt (omega arith)

abbrev int_name : Bytes
int_name = b'I' ∷ b'N' ∷ b'T' ∷ []

abbrev pair_name : Bytes
pair_name = b'P' ∷ []

abbrev int_type : DataType
int_type = described (declared int_name [] 2 0 2) no_items

-- Two integers, x and y.
abbrev pair_type : DataType
pair_type = described (declared pair_name [] 4 0 65) (
    item (described (declared (b'x' ∷ []) int_name 2 0 2) no_items)
      (item (described (declared (b'y' ∷ []) int_name 2 2 2) no_items) no_items))

int-IsWireType : IsWireType sent int_type
int-IsWireType = (
  declared-IsFields int_name [] 2 0 2 (omega arith) (omega arith) (omega arith) (omega arith)
      (omega arith),
  omega arith,
  tt,
)

member :
    (name : Bytes) (offset : ℕ)
    → length name < 65535
    → offset < 2 ^ 32
    → IsWireType sent (described (declared name int_name 2 offset 2) no_items)
member name offset a b = (
  declared-IsFields name int_name 2 offset 2 a (omega arith) (omega arith) b (omega arith),
  omega arith,
  tt,
)

pair-IsWireType : IsWireType sent pair_type
pair-IsWireType = (
  declared-IsFields pair_name [] 4 0 65 (omega arith) (omega arith) (omega arith) (omega arith)
      (omega arith),
  omega arith,
  (
    member (b'x' ∷ []) 0 (omega arith) (omega arith),
    omega arith,
    (member (b'y' ∷ []) 2 (omega arith) (omega arith), omega arith, tt),
  ),
)

-- The pair as a type with a copy mask, methods and dereferenced types.
abbrev block_type : DataType
block_type =
    described (record (declared pair_name [] 4 0 65) { flags = 0x10000a00 })
      (item (described (declared (b'x' ∷ []) int_name 2 0 2) no_items)
        (item (described (declared (b'y' ∷ []) int_name 2 2 2) no_items) no_items))

block-IsWireType : IsWireType sent block_type
block-IsWireType = (
  record {
    version_word = omega arith;
    hash_word = omega arith;
    type_hash_word = omega arith;
    size_word = omega arith;
    offset_word = omega arith;
    data_type_word = omega arith;
    flags_word = omega arith;
    name_short = omega arith;
    type_short = omega arith;
    comment_short = omega arith;
    dims_short = omega arith;
    dims = refl;
    arrays = tt;
    guid_block = refl;
    attribute_block = refl;
    enum_block = refl;
    flags_block = refl;
    mask_block = refl;
    method_block = (omega arith, ((omega arith, omega arith), ((omega arith, omega arith), tt)));
    deref_block = (omega arith, (refl, tt));
    methods_empty = refl;
    mask_zero = refl;
  },
  omega arith,
  pair-IsWireType.2,
)

parse_data_type-image_example :
    parse_data_type (response_image sent 7 block_type (9 ∷ [])) ≡ ok block_type
parse_data_type-image_example =
    parse_data_type-image sent block_type 7 (9 ∷ []) (omega arith) block-IsWireType

-- A response cut within its second sub-item.
abbrev cut_response : Bytes
cut_response = take 100 (response_image sent 7 pair_type [])

parse_nested_ends_example :
    parse_nested (λ _. err response_timeout) (suc (length cut_response)) cut_response
    ≡ parse_data_type cut_response
parse_nested_ends_example = parse_nested_ends (λ _. err response_timeout) cut_response

-- What stands in a request for a type behind its four numbers: the name and a zero.
abbrev looked_up : Bytes → Option DataType
looked_up payload =
    if same_bytes payload (b'P' ∷ 0 ∷ [])
    then some pair_type
    else if same_bytes payload (b'I' ∷ b'N' ∷ b'T' ∷ 0 ∷ [])
    then some int_type
    else none

abbrev FitsResponse : DataType → Type 0
FitsResponse d = IsWireType sent d × (length (response_image sent 100 d []) < 2 ^ 32)

looked_up_fits : (payload : Bytes) (d : DataType) → looked_up payload ≡ some d → FitsResponse d
looked_up_fits payload d e =
    by_names (same_bytes payload (b'P' ∷ 0 ∷ [])) (same_bytes payload (b'I' ∷ b'N' ∷ b'T' ∷ 0 ∷ []))
      e
  where
    by_names :
        (pair int : Bool)
        → (if pair then some pair_type else if int then some int_type else none) ≡ some d
        → FitsResponse d
    by_names true int h =
        let g : pair_type ≡ d = cc in subst FitsResponse g (pair-IsWireType, omega arith)
    by_names false true h =
        let g : int_type ≡ d = cc in subst FitsResponse g (int-IsWireType, omega arith)
    by_names false false h = absurd (cc)

-- The types by what stands in the request, and the answers to it.
abbrev table_of : (Bytes → Option DataType) → Table
table_of types name =
    types (drop 16 (build_read_write_request_with_null_terminator 61457 0 0xffffffff name))

abbrev described_by : Option DataType → Bytes
described_by (some d) = success_image (response_image sent 100 d [])
described_by none = le_bytes 4 1808 ++ le_bytes 4 0

-- Any device that answers the requests for types so.
served :
    {S : Type 0} (send : AdsCommandRequest → Action S Bytes) (port : ℕ)
    (types : Bytes → Option DataType)
    → ((payload : Bytes) (d : DataType) → types payload ≡ some d → FitsResponse d)
    → ((name : Bytes) (s : S)
        → send (type_request port name) s
          ≡ (ok (described_by (types (drop 16 (type_request port name).data_bytes))), s))
    → TypeServer send port (table_of types)
served send port types fits answers = record {
  sent = sent;
  describes = λ name d e. (
    (fits (drop 16 (build_read_write_request_with_null_terminator 61457 0 0xffffffff name)) d e).0,
    (
      100,
      [],
      omega arith,
      (fits (drop 16 (build_read_write_request_with_null_terminator 61457 0 0xffffffff name)) d
          e).1,
      λ s. answers name s ∙ ap (λ o. (ok (described_by o), s)) e,
    ),
  );
  refuses = λ name e. (
    le_bytes 4 1808 ++ le_bytes 4 0,
    ads_error 1808,
    (strip_ads_header_answers 1808 0 [] (omega arith) (omega arith)).0,
    λ s. answers name s ∙ ap (λ o. (ok (described_by o), s)) e,
  );
}

abbrev pub type_table : Table
type_table = table_of looked_up

abbrev pub type_answer : AdsCommandRequest → Bytes
type_answer request = described_by (looked_up (drop 16 request.data_bytes))

pub types_served :
    {S : Type 0} (send : AdsCommandRequest → Action S Bytes) (port : ℕ)
    → ((name : Bytes) (s : S)
        → send (type_request port name) s ≡ (ok (type_answer (type_request port name)), s))
    → TypeServer send port type_table
types_served send port answers = served send port looked_up looked_up_fits answers

-- The integer's type as a part, and the pair with its parts' types.
abbrev int_built : Bytes → ℕ → AdsDataType
int_built name offset =
    placed (fields_of (convert_data_type (described (declared name int_name 2 offset 2) no_items)))
      (ads_type (root_named true (fields_of (convert_data_type int_type))) no_sub_items)

abbrev pub pair_built : AdsDataType
pair_built =
    ads_type (fields_of (convert_data_type pair_type))
      (sub_item (int_built (b'x' ∷ []) 0) (sub_item (int_built (b'y' ∷ []) 2) no_sub_items))

pub pair-Built : Built type_table (b'P' ∷ []) pair_built
unfolding build_read_write_request_with_null_terminator
pair-Built = struct refl (part (plain refl refl) (part (plain refl refl) no_parts))

pub pair-shallow : height pair-Built ≤ 3
unfolding pair-Built
pair-shallow = omega arith

-- Devices that know these types, or one that is its own element, and nothing else.
abbrev type_device : (Bytes → Option DataType) → AdsCommandRequest → Action (Unit {0}) Bytes
type_device types request s = (ok (described_by (types (drop 16 request.data_bytes))), s)

abbrev lost : Bytes → Action (Unit {0}) AdsDataType
lost name s = (err response_timeout, s)

pair_server : TypeServer (type_device looked_up) 851 type_table
pair_server = types_served (type_device looked_up) 851 (λ name s. refl)

get_data_type-Built_example :
    get_data_type (type_device looked_up) lost 3 (b'P' ∷ []) 851 tt ≡ (ok pair_built, tt)
get_data_type-Built_example =
    get_data_type-Built (type_device looked_up) 851 type_table pair_server lost (b'P' ∷ [])
      pair_built pair-Built 3 tt pair-shallow

Built-get_data_type_example : Built type_table (b'P' ∷ []) pair_built
Built-get_data_type_example =
    Built-get_data_type (type_device looked_up) 851 type_table pair_server (b'P' ∷ []) pair_built 3
      tt tt
      (get_data_type-Built (type_device looked_up) 851 type_table pair_server (λ name s. (panic, s))
        (b'P' ∷ []) pair_built pair-Built 3 tt pair-shallow)

abbrev own_element : DataType
own_element =
    described
      (declared_array (record { start_index = pos 0; entries = 2 } ∷ []) (b'A' ∷ []) (b'A' ∷ []) 4 0
        65)
      no_items

abbrev only_own_element : Bytes → Option DataType
only_own_element payload = some own_element

own_element-IsWireType : IsWireType sent own_element
own_element-IsWireType = (
  declared_array-IsFields (record { start_index = pos 0; entries = 2 } ∷ []) (b'A' ∷ []) (b'A' ∷ [])
      4 0 65 (omega arith) (omega arith) (omega arith) (omega arith) (omega arith) (omega arith)
      (omega arith),
  omega arith,
  tt,
)

get_data_type_cyclic_example :
    get_data_type (type_device only_own_element) lost 9 (b'A' ∷ []) 851 tt
    ≡ (err response_timeout, tt)
get_data_type_cyclic_example =
    get_data_type_cyclic (type_device only_own_element) 851 (table_of only_own_element)
      (served (type_device only_own_element) 851 only_own_element
        (λ payload d e.
          let g : own_element ≡ d = cc in
          subst FitsResponse g (own_element-IsWireType, omega arith))
        (λ name s. refl))
      lost (b'A' ∷ []) own_element (fields_of (convert_data_type own_element)) response_timeout 9 tt
      refl refl (omega arith) refl refl
