-- ===== src/Client/DataTypes/Built.antt =====
-- What client_data_types.go promises: the type of a name, by the declarations that a device holds.
use ads_go.Base.{
  [], ◌++◌, map, ℕ, suc, ◌+◌, ◌<◌, ◌^◌, ◌≡◌, Option, none, some, ok, err, Error, length,
}
use ads_go.Wire.{Bytes}
use ads_go.AdsHeader.{strip_ads_header}
use ads_go.AdsHeader.Accepts.{success_image}
use ads_go.Requests.{build_read_write_request_with_null_terminator}
use ads_go.DataType.Types.{
  ArrayInfo, Attribute, EnumInfo, MethodParam, Method, TypeFields, DataType, SubItems, described,
  no_items, item,
}
use ads_go.DataType.Image.{Skipped, response_image, IsWireType}
use ads_go.AdsTypes.{
  AdsArrayInfo, AdsAttribute, AdsEnumInfo, AdsMethodParam, AdsMethod, AdsTypeFields, AdsDataType,
  AdsSubItems, ads_type, no_sub_items, sub_item,
}
use ads_go.Client.Commands.{AdsCommandRequest, Action}

abbrev pub Table : Type 0
Table = Bytes → Option DataType

-- The fields of a declaration, one by one, as the client's types have them.
abbrev pub declared : TypeFields → AdsTypeFields
declared f = record {
  name = f.name;
  type_name = f.type_name;
  version = f.version;
  hash_value = f.hash_value;
  type_hash = f.type_hash;
  size = f.size;
  offset = f.offset;
  data_type = f.data_type;
  flags = f.flags;
  array_dim = f.array_dim;
  comment = f.comment;
  array_info = map bounds f.array_info;
  enum_info = map constant f.enum_info;
  attributes = map pair f.attributes;
  methods = map signature f.methods;
  guid = f.guid;
  extended_flags = f.extended_flags;
  copy_mask = f.copy_mask;
}
  where
    bounds : ArrayInfo → AdsArrayInfo
    bounds i = record { start_index = i.start_index; entries = i.entries }

    pair : Attribute → AdsAttribute
    pair a = record { name = a.name; value = a.value }

    constant : EnumInfo → AdsEnumInfo
    constant i = record {
      name = i.name;
      value = i.value;
      comment = i.comment;
      attributes = map pair i.attributes;
    }

    parameter : MethodParam → AdsMethodParam
    parameter q = record { name = q.name; type_name = q.type_name }

    signature : Method → AdsMethod
    signature m = record {
      name = m.name;
      return_type = m.return_type;
      params = map parameter m.params;
    }

-- The type of a name, by its declaration in the table. One with no parts and no dimensions is a type
-- of its own, called by its name. One with dimensions is the type of the element, with the declared
-- bounds in front of the element's. One with parts has for each of them the type of the part's type
-- name, with the name, the offset and the comment that the part is declared with.
mutual
  pub data Built (table : Table) : Bytes → AdsDataType → Type 0 where
    plain :
        {name : Bytes} {f : TypeFields}
        → table name ≡ some (described f no_items)
        → f.array_dim ≡ 0
        → Built table name
            (ads_type (record (declared f) { name = []; type_name = f.name }) no_sub_items)
    array :
        {name : Bytes} {f : TypeFields} {u : AdsTypeFields} {own : AdsSubItems}
        → table name ≡ some (described f no_items)
        → 0 < f.array_dim
        → Built table f.type_name (ads_type u own)
        → Built table name
            (ads_type (record u { array_info = (declared f).array_info ++ u.array_info }) own)
    struct :
        {name : Bytes} {f : TypeFields} {first : DataType} {items : SubItems} {built : AdsSubItems}
        → table name ≡ some (described f (item first items))
        → Parts table (item first items) built
        → Built table name (ads_type (declared f) built)

  pub data Parts (table : Table) : SubItems → AdsSubItems → Type 0 where
    no_parts : Parts table no_items no_sub_items
    part :
        {f : TypeFields} {inner items : SubItems} {u : AdsTypeFields} {own rest : AdsSubItems}
        → Built table f.type_name (ads_type u own)
        → Parts table items rest
        → Parts table (item (described f inner) items) (
            sub_item
              (ads_type (record u { name = f.name; offset = f.offset; comment = f.comment }) own)
              rest)

-- How deep a type is nested.
abbrev mutual
  pub height : {table : Table} {name : Bytes} {t : AdsDataType} → Built table name t → ℕ
  height (plain e a) = 1
  height (array e a b) = suc (height b)
  height (struct e p) = suc (height_parts p)

  pub height_parts :
      {table : Table} {items : SubItems} {built : AdsSubItems} → Parts table items built → ℕ
  height_parts no_parts = 0
  height_parts (part b p) = height b + height_parts p

abbrev pub type_request : ℕ → Bytes → AdsCommandRequest
type_request port name = record {
  command = 9;
  target_port = port;
  data_bytes = build_read_write_request_with_null_terminator 61457 0 0xffffffff name;
}

-- A device that describes the types of a table in the format that the parser reads, refuses the
-- other names with an error, and is not changed by the question.
pub record TypeServer {S : Type 0} (send : AdsCommandRequest → Action S Bytes) (port : ℕ)
    (table : Table) : Type 0 where
  pub sent : TypeFields → Skipped
  pub describes :
      (name : Bytes) (d : DataType)
      → table name ≡ some d
      → IsWireType sent d
        × ((data_len : ℕ) × (rest : Bytes) × (data_len < 2 ^ 32)
            × (length (response_image sent data_len d rest) < 2 ^ 32)
            × ((s : S)
                → send (type_request port name) s
                  ≡ (ok (success_image (response_image sent data_len d rest)), s)))
  pub refuses :
      (name : Bytes)
      → table name ≡ none
      → (response : Bytes) × (e : Error) × (strip_ads_header response ≡ err e)
        × ((s : S) → send (type_request port name) s ≡ (ok response, s))
