-- ===== src/DataType/Types.antt =====
-- pkg/ads/ads-datatype/types.go: the description of a type, which holds those of its parts.
use ads_go.Base.{ℕ, suc, List}
use ads_go.Base.Integer.{ℤ}
use ads_go.Wire.{Bytes}

pub record ArrayInfo : Type 0 where
  pub start_index : ℤ
  pub entries : ℕ

pub record Attribute : Type 0 where
  pub name : Bytes
  pub value : Bytes

pub record EnumInfo : Type 0 where
  pub name : Bytes
  pub value : ℤ
  pub comment : Bytes
  pub attributes : List Attribute

pub record MethodParam : Type 0 where
  pub name : Bytes
  pub type_name : Bytes

pub record Method : Type 0 where
  pub name : Bytes
  pub return_type : Bytes
  pub params : List MethodParam

-- The fields of a `DataType` but its sub-items.
pub record TypeFields : Type 0 where
  pub name : Bytes
  pub type_name : Bytes
  pub version : ℕ
  pub hash_value : ℕ
  pub type_hash : ℕ
  pub size : ℕ
  pub offset : ℕ
  pub data_type : ℕ
  pub flags : ℕ
  pub array_dim : ℕ
  pub comment : Bytes
  pub array_info : List ArrayInfo
  pub enum_info : List EnumInfo
  pub attributes : List Attribute
  pub methods : List Method
  pub guid : Bytes
  pub extended_flags : ℕ
  pub copy_mask : ℕ

mutual
  pub data DataType : Type 0 where
    described : TypeFields → SubItems → DataType

  pub data SubItems : Type 0 where
    no_items : SubItems
    item : DataType → SubItems → SubItems

abbrev pub count_items : SubItems → ℕ
count_items no_items = 0
count_items (item t ts) = suc (count_items ts)
