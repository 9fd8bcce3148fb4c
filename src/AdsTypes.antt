-- ===== src/AdsTypes.antt =====
-- pkg/ads/types/ADSDataTypes.go and ADSDataType.go: the type of a value, as a client hands it out.
use ads_go.Base.{ℕ, List}
use ads_go.Base.Integer.{ℤ}
use ads_go.Wire.{Bytes}

pub record AdsArrayInfo : Type 0 where
  pub start_index : ℤ
  pub entries : ℕ

pub record AdsAttribute : Type 0 where
  pub name : Bytes
  pub value : Bytes

pub record AdsEnumInfo : Type 0 where
  pub name : Bytes
  pub value : ℤ
  pub comment : Bytes
  pub attributes : List AdsAttribute

pub record AdsMethodParam : Type 0 where
  pub name : Bytes
  pub type_name : Bytes

pub record AdsMethod : Type 0 where
  pub name : Bytes
  pub return_type : Bytes
  pub params : List AdsMethodParam

-- The fields of an `AdsDataType` but its sub-items.
pub record AdsTypeFields : Type 0 where
  pub name : Bytes
  pub type_name : Bytes
  pub version : ℕ
  pub hash_value : ℕ
  pub type_hash : ℕ
  pub size : ℕ
  pub offset : ℕ
  pub data_type : ℕ
  pub flags : ℕ
  pub array_dim : ℕ
  pub comment : Bytes
  pub array_info : List AdsArrayInfo
  pub enum_info : List AdsEnumInfo
  pub attributes : List AdsAttribute
  pub methods : List AdsMethod
  pub guid : Bytes
  pub extended_flags : ℕ
  pub copy_mask : ℕ

mutual
  pub data AdsDataType : Type 0 where
    ads_type : AdsTypeFields → AdsSubItems → AdsDataType

  pub data AdsSubItems : Type 0 where
    no_sub_items : AdsSubItems
    sub_item : AdsDataType → AdsSubItems → AdsSubItems

abbrev pub fields_of : AdsDataType → AdsTypeFields
fields_of (ads_type t items) = t

abbrev pub sub_items_of : AdsDataType → AdsSubItems
sub_items_of (ads_type t items) = items

-- types.ADSDataType.
abbrev pub adst_void : ℕ
adst_void = 0

abbrev pub adst_int16 : ℕ
adst_int16 = 2

abbrev pub adst_int32 : ℕ
adst_int32 = 3

abbrev pub adst_real32 : ℕ
adst_real32 = 4

abbrev pub adst_real64 : ℕ
adst_real64 = 5

abbrev pub adst_int8 : ℕ
adst_int8 = 16

abbrev pub adst_uint8 : ℕ
adst_uint8 = 17

abbrev pub adst_uint16 : ℕ
adst_uint16 = 18

abbrev pub adst_uint32 : ℕ
adst_uint32 = 19

abbrev pub adst_int64 : ℕ
adst_int64 = 20

abbrev pub adst_uint64 : ℕ
adst_uint64 = 21

abbrev pub adst_string : ℕ
adst_string = 30

abbrev pub adst_wstring : ℕ
adst_wstring = 31

abbrev pub adst_bit : ℕ
adst_bit = 33

abbrev pub adst_bigtype : ℕ
adst_bigtype = 65
