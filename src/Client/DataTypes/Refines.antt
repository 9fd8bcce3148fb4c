-- ===== src/Client/DataTypes/Refines.antt =====
-- client_data_types.go builds what the device's declarations say, and nothing else.
use ads_go.Base.{
  ℕ, zero, suc, ◌<◌, ◌≤◌, ◌≡◌, refl, Bool, true, false, none, some, Result, ok, err, panic, Error,
  arith, ltb, lt→ltb, ltb→lt, ltb→le, subst, if◌then◌else◌, Option-cases, inl, inr,
}
use ads_go.Wire.{Bytes}
use ads_go.DataType.Types.{TypeFields, DataType, SubItems, described, no_items, item}
use ads_go.DataType.Image.{response_image}
use ads_go.DataType.RoundTrip.{parse_data_type-image}
use ads_go.AdsTypes.{AdsTypeFields, AdsDataType, AdsSubItems, ads_type, no_sub_items, sub_item}
use ads_go.Client.Commands.{AdsCommandRequest, Action, go_on, and_then, pure, read_write_raw}
use ads_go.Client.Commands.Memory.{strip_ads_header_success}
use ads_go.Client.DataTypes.{
  convert_data_type, convert_sub_items, convert_fields, parse_ads_data_type_response, placed,
  with_array_info, root_named, build_sub_items, build_data_type_recursive,
  get_data_type_declaration, build_with, build_data_type, get_data_type,
}
use ads_go.Client.DataTypes.Built.{
  Table, Built, Parts, plain, array, struct, no_parts, part, height, height_parts, TypeServer,
}

module _ {S : Type 0} (send : AdsCommandRequest → Action S Bytes) (port : ℕ) (table : Table)
    (server : TypeServer send port table) where
  pub declaration_found :
      (name : Bytes) (d : DataType) (s : S)
      → table name ≡ some d
      → get_data_type_declaration send port name s ≡ (ok (convert_data_type d), s)
  unfolding get_data_type_declaration read_write_raw parse_ads_data_type_response
  declaration_found name d s e =
      let (wire, (data_len, rest, small, short, answers)) = server.describes name d e in
      rw
        (
          answers s,
          strip_ads_header_success (response_image server.sent data_len d rest) short,
          parse_data_type-image server.sent d data_len rest small wire,
        )
        refl

  declaration_missing :
      (name : Bytes) (s : S)
      → table name ≡ none
      → (e : Error) × (get_data_type_declaration send port name s ≡ (err e, s))
  unfolding get_data_type_declaration read_write_raw parse_ads_data_type_response
  declaration_missing name s e =
      let (response, problem, refused, answers) = server.refuses name e in
      (problem, rw (answers s, refused) refl)

  module _ (below : Bytes → Action S AdsDataType) where
    mutual
      unfolding build_data_type build_with build_data_type_recursive build_sub_items

      built_returned :
          {name : Bytes} {t : AdsDataType} (b : Built table name t) (depth : ℕ) (s : S)
          → height b ≤ depth
          → build_data_type send below depth port name s ≡ (ok t, s)
      built_returned (plain e a) zero s h = absurd (omega arith)
      built_returned (plain e a) (suc depth) s h =
          rw (declaration_found _ _ s e, build_data_type_recursive, a) refl
      built_returned (array e a b) zero s h = absurd (omega arith)
      built_returned (array e a b) (suc depth) s h =
          rw
            (
              declaration_found _ _ s e,
              build_data_type_recursive,
              lt→ltb 0 _ a,
              built_returned b depth s (omega (arith, h)),
            )
            refl
      built_returned (struct e p) zero s h = absurd (omega arith)
      built_returned (struct e p) (suc depth) s h =
          rw
            (
              declaration_found _ _ s e,
              build_data_type_recursive,
              Parts-returned p depth s (omega (arith, h)),
            )
            refl

      Parts-returned :
          {items : SubItems} {built : AdsSubItems} (p : Parts table items built) (depth : ℕ) (s : S)
          → height_parts p ≤ depth
          → build_sub_items (build_data_type send below depth port) (convert_sub_items items) s
            ≡ (ok built, s)
      Parts-returned no_parts depth s h = refl
      Parts-returned (part b p) depth s h =
          rw
            (
              built_returned b depth s (omega (arith, h)),
              Parts-returned p depth s (omega (arith, h)),
            )
            refl

-- A chain that came to a value did so at each step.
go_on_ok :
    {S A B : Type 0} (f : A → Action S B) (r : Result A × S) (b : B) (s' : S)
    → go_on f r ≡ (ok b, s')
    → (a : A) × (s : S) × (r ≡ (ok a, s)) × (f a s ≡ (ok b, s'))
go_on_ok f (ok a, s) b s' e = (a, s, refl, e)
go_on_ok f (err p, s) b s' e = absurd (cc)
go_on_ok f (panic, s) b s' e = absurd (cc)

-- A call that returns only what is built from the table.
abbrev IsSound : {S : Type 0} → Table → (Bytes → Action S AdsDataType) → Type 0
IsSound {S} table build =
    (name : Bytes) (t : AdsDataType) (s s' : S) → build name s ≡ (ok t, s') → Built table name t

module _ {S : Type 0} (table : Table) (build : Bytes → Action S AdsDataType)
    (sound : IsSound table build) where
  Parts-built :
      (items : SubItems) (built : AdsSubItems) (s s' : S)
      → build_sub_items build (convert_sub_items items) s ≡ (ok built, s')
      → Parts table items built
  unfolding build_sub_items
  Parts-built no_items built s s' e =
      let f : no_sub_items ≡ built = cc in subst (λ b. Parts table no_items b) f no_parts
  Parts-built (item (described f inner) items) built s s' e =
      let (one, s1, e1, f1) = go_on_ok _ (build f.type_name s) built s' e in
      let (rest, s2, e2, f2) =
        go_on_ok _ (build_sub_items build (convert_sub_items items) s1) built s' f1 in
      let g : sub_item (placed (convert_fields f) one) rest ≡ built = cc in
      subst (λ b. Parts table (item (described f inner) items) b) g
        (in_place one rest (sound f.type_name one s s1 e1) (Parts-built items rest s1 s2 e2))
    where
      in_place :
          (one : AdsDataType) (rest : AdsSubItems)
          → Built table f.type_name one
          → Parts table items rest
          → Parts table
              (item (described f inner) items)
              (sub_item (placed (convert_fields f) one) rest)
      in_place (ads_type u own) rest h k = part h k

  element_built :
      (name : Bytes) (f : TypeFields) (element : AdsDataType)
      → table name ≡ some (described f no_items)
      → 0 < f.array_dim
      → Built table f.type_name element
      → Built table name (with_array_info (convert_fields f).array_info element)
  element_built name f (ads_type u own) e l h = array e l h

  recursive_built :
      (name : Bytes) (d : DataType) (t : AdsDataType) (s s' : S)
      → table name ≡ some d
      → build_data_type_recursive build true (convert_data_type d) s ≡ (ok t, s')
      → Built table name t
  unfolding build_data_type_recursive
  recursive_built name (described f (item first items)) t s s' e h =
      let parts : AdsSubItems = convert_sub_items (item first items) in
      let (built, s1, e1, f1) = go_on_ok _ (build_sub_items build parts s) t s' h in
      let g : ads_type (convert_fields f) built ≡ t = cc in
      subst (λ x. Built table name x) g (struct e (Parts-built (item first items) built s s1 e1))
  recursive_built name (described f no_items) t s s' e h = by_dims (ltb 0 f.array_dim) refl h
    where
      by_dims :
          (dims : Bool)
          → ltb 0 f.array_dim ≡ dims
          → (if dims
                then and_then
                    (build f.type_name)
                    (λ element. pure (ok (with_array_info (convert_fields f).array_info element)))
                else pure (ok (ads_type (root_named true (convert_fields f)) no_sub_items)))
              s
            ≡ (ok t, s')
          → Built table name t
      by_dims true l h1 =
          let (element, s1, e1, f1) = go_on_ok _ (build f.type_name s) t s' h1 in
          let g : with_array_info (convert_fields f).array_info element ≡ t = cc in
          subst (λ x. Built table name x) g
            (element_built name f element e (ltb→lt 0 f.array_dim l)
              (sound f.type_name element s s1 e1))
      by_dims false l h1 =
          let g : ads_type (root_named true (convert_fields f)) no_sub_items ≡ t = cc in
          let no_dims : f.array_dim ≡ 0 = omega (arith, ltb→le 0 f.array_dim l) in
          subst (λ x. Built table name x) g (plain e no_dims)

module _ {S : Type 0} (send : AdsCommandRequest → Action S Bytes) (port : ℕ) (table : Table)
    (server : TypeServer send port table) where
  -- Below the depth nothing is built.
  returned_built : (depth : ℕ) → IsSound table (build_data_type send (λ _. pure panic) depth port)
  unfolding build_data_type build_with
  returned_built zero name t s s' e = absurd (cc)
  returned_built (suc depth) name t s s' e = elim (Option-cases (table name)) [
    | inl missing ↦
        let (problem, refused) = declaration_missing send port table server name s missing in
        absurd (cc)
    | inr (d, found) ↦
        recursive_built table (build_data_type send (λ _. pure panic) depth port)
          (returned_built depth) name d t s s' found
          (subst
            (λ r.
              go_on
                (build_data_type_recursive (build_data_type send (λ _. pure panic) depth port) true)
                r
              ≡ (ok t, s'))
            (declaration_found send port table server name d s found) e)
  ]

  -- Against a device that describes the types of a table and refuses the names that are not in it:
  -- `GetDataType` returns a type that the declarations build, and leaves the device as it was, once
  -- it may nest as deep as that type does and whatever a deeper call does.
  pub get_data_type-Built :
      (below : Bytes → Action S AdsDataType) (name : Bytes) (t : AdsDataType)
      (b : Built table name t) (depth : ℕ) (s : S)
      → height b ≤ depth
      → get_data_type send below depth name port s ≡ (ok t, s)
  unfolding get_data_type
  get_data_type-Built below name t b depth s h =
      built_returned send port table server below b depth s h

  -- Against a device that describes the types of a table and refuses the names that are not in it:
  -- what `GetDataType` returns, to whatever depth it nests, is a type that the declarations build.
  pub Built-get_data_type :
      (name : Bytes) (t : AdsDataType) (depth : ℕ) (s s' : S)
      → get_data_type send (λ _. pure panic) depth name port s ≡ (ok t, s')
      → Built table name t
  unfolding get_data_type
  Built-get_data_type name t depth s s' e = returned_built depth name t s s' e

  -- An array that is declared as its own element is asked for again and again: the recursion
  -- reaches every depth.
  pub get_data_type_cyclic :
      (below : Bytes → Action S AdsDataType) (name : Bytes) (d : DataType) (t : AdsTypeFields)
      (e : Error) (depth : ℕ) (s : S)
      → table name ≡ some d
      → convert_data_type d ≡ ads_type t no_sub_items
      → 0 < t.array_dim
      → t.type_name ≡ name
      → below name s ≡ (err e, s)
      → get_data_type send below depth name port s ≡ (err e, s)
  unfolding get_data_type build_data_type build_with build_data_type_recursive
  get_data_type_cyclic below name d t e zero s found c dims self bottom = bottom
  get_data_type_cyclic below name d t e (suc depth) s found c dims self bottom =
      rw
        (
          declaration_found send port table server name d s found,
          c,
          build_data_type_recursive,
          lt→ltb 0 t.array_dim dims,
          self,
          get_data_type_cyclic below name d t e depth s found c dims self bottom,
        )
        refl
