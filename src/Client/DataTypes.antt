-- ===== src/Client/DataTypes.antt =====
-- client_data_types.go: the type of a name, put together from its declarations on the device.
pub mod Built
pub mod Refines
use ads_go.Base.{
  ℕ, zero, suc, ◌+◌, Bool, true, false, List, [], ◌∷◌, ◌++◌, map, Result, ok, err, panic, ◌>>=◌,
  ltb, if◌then◌else◌,
}
use ads_go.Wire.{Bytes}
use ads_go.DataType.Types.{
  ArrayInfo, Attribute, EnumInfo, MethodParam, Method, TypeFields, DataType, SubItems, described,
  no_items, item,
}
use ads_go.DataType.Parse.{parse_data_type}
use ads_go.AdsTypes.{
  AdsArrayInfo, AdsAttribute, AdsEnumInfo, AdsMethodParam, AdsMethod, AdsTypeFields, AdsDataType,
  AdsSubItems, ads_type, no_sub_items, sub_item, fields_of, sub_items_of,
}
use ads_go.Client.Commands.{AdsCommandRequest, Action, and_then, pure, read_write_raw}

abbrev pub convert_attribute : Attribute → AdsAttribute
convert_attribute a = record { name = a.name; value = a.value }

abbrev pub convert_enum_info : EnumInfo → AdsEnumInfo
convert_enum_info info = record {
  name = info.name;
  value = info.value;
  comment = info.comment;
  attributes = map convert_attribute info.attributes;
}

abbrev pub convert_array_info : ArrayInfo → AdsArrayInfo
convert_array_info info = record { start_index = info.start_index; entries = info.entries }

abbrev pub convert_method_param : MethodParam → AdsMethodParam
convert_method_param param = record { name = param.name; type_name = param.type_name }

abbrev pub convert_method : Method → AdsMethod
convert_method method = record {
  name = method.name;
  return_type = method.return_type;
  params = map convert_method_param method.params;
}

abbrev pub convert_fields : TypeFields → AdsTypeFields
convert_fields t = record {
  name = t.name;
  type_name = t.type_name;
  version = t.version;
  hash_value = t.hash_value;
  type_hash = t.type_hash;
  size = t.size;
  offset = t.offset;
  data_type = t.data_type;
  flags = t.flags;
  array_dim = t.array_dim;
  comment = t.comment;
  array_info = map convert_array_info t.array_info;
  enum_info = map convert_enum_info t.enum_info;
  attributes = map convert_attribute t.attributes;
  methods = map convert_method t.methods;
  guid = t.guid;
  extended_flags = t.extended_flags;
  copy_mask = t.copy_mask;
}

abbrev mutual
  pub convert_data_type : DataType → AdsDataType
  convert_data_type (described t items) = ads_type (convert_fields t) (convert_sub_items items)

  pub convert_sub_items : SubItems → AdsSubItems
  convert_sub_items no_items = no_sub_items
  convert_sub_items (item t items) = sub_item (convert_data_type t) (convert_sub_items items)

unfoldable pub parse_ads_data_type_response : Bytes → Result AdsDataType
parse_ads_data_type_response payload = parse_data_type payload >>= λ t. ok (convert_data_type t)

-- types.ADSReservedIndexGroup.
abbrev pub group_data_type_info_by_name_ex : ℕ
group_data_type_info_by_name_ex = 61457

-- A sub-item's built type, with the name, the offset and the comment of its declaration.
abbrev pub placed : AdsTypeFields → AdsDataType → AdsDataType
placed declared (ads_type t items) =
    ads_type
      (record t { name = declared.name; offset = declared.offset; comment = declared.comment })
      items

-- An element's type, with the bounds of the array in front of its own.
abbrev pub with_array_info : List AdsArrayInfo → AdsDataType → AdsDataType
with_array_info infos (ads_type t items) =
    ads_type (record t { array_info = infos ++ t.array_info }) items

abbrev pub root_named : Bool → AdsTypeFields → AdsTypeFields
root_named is_root_type t = if is_root_type then record t { type_name = t.name; name = [] } else t

module _ {S : Type 0} where
  unfoldable pub build_sub_items :
      (Bytes → Action S AdsDataType) → AdsSubItems → Action S AdsSubItems
  build_sub_items build no_sub_items = pure (ok no_sub_items)
  build_sub_items build (sub_item (ads_type t _) items) = and_then (build t.type_name) (λ built.
      and_then (build_sub_items build items) (λ rest. pure (ok (sub_item (placed t built) rest))))

  -- With the call of `BuildDataType` that it makes.
  unfoldable pub build_data_type_recursive :
      (Bytes → Action S AdsDataType) → Bool → AdsDataType → Action S AdsDataType
  build_data_type_recursive build is_root_type (ads_type t (sub_item first items)) =
      and_then (build_sub_items build (sub_item first items))
        (λ built. pure (ok (ads_type t built)))
  build_data_type_recursive build is_root_type (ads_type t no_sub_items) =
      if ltb 0 t.array_dim
      then and_then (build t.type_name) (λ built. pure (ok (with_array_info t.array_info built)))
      else pure (ok (ads_type (root_named is_root_type t) no_sub_items))

module _ {S : Type 0} (send : AdsCommandRequest → Action S Bytes) where
  unfoldable pub get_data_type_declaration : ℕ → Bytes → Action S AdsDataType
  get_data_type_declaration port name =
      and_then (read_write_raw send port group_data_type_info_by_name_ex 0 0xffffffff name)
        (λ payload. pure (parse_ads_data_type_response payload))

  -- One call of `BuildDataType`, with those that it makes in turn.
  unfoldable pub build_with : (Bytes → Action S AdsDataType) → ℕ → Bytes → Action S AdsDataType
  build_with build port name =
      and_then (get_data_type_declaration port name) (build_data_type_recursive build true)

  -- To a depth, and what is called below it. The program knows no such bound.
  unfoldable pub build_data_type :
      (Bytes → Action S AdsDataType) → ℕ → ℕ → Bytes → Action S AdsDataType
  build_data_type below zero port name = below name
  build_data_type below (suc depth) port name =
      build_with (build_data_type below depth port) port name

  unfoldable pub get_data_type :
      (Bytes → Action S AdsDataType) → ℕ → Bytes → ℕ → Action S AdsDataType
  get_data_type below depth name port = build_data_type below depth port name
