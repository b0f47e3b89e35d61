-- ===== src/IrOptimizer.antt =====
-- src/StyioIR/GenIR/SGIR.hpp, src/StyioIR/GenIR/SCIR.hpp and src/StyioToken/Token.hpp: the nodes of the
-- intermediate representation that src/StyioLowering/StyioIROptimizer.cpp looks into. A null pointer
-- is `null`, a block of a node is a node, and an enumerator of a small enum is its number. The node
-- classes whose children are only visited are one constructor, and all others another.
pub mod Analysis
pub mod Rebind
pub mod Passes
pub mod Meaning
pub mod Hoist
mod Tests
use styio.Prelude.{
  ℕ, Bool, true, false, ◌&&◌, Option, none, some, List, ◌==◌, ==_iff, ◌≡◌, and_split,
}
use mathlib.Core.Logic.{ite}
use styio.Prelude.Texts.{same_text, same_text→≡}
use styio.Prelude.Bits.{same_bool, same_bool_eq}

-- `StyioOpType`
pub data OpType : Type 0 where
  undefined end_of_file unary_positive unary_negative binary_add binary_sub binary_mul : OpType
  binary_div binary_pow binary_mod greater_than less_than greater_than_equal : OpType
  less_than_equal self_add_assign self_sub_assign self_mul_assign self_div_assign : OpType
  self_mod_assign bitwise_not bitwise_and bitwise_or bitwise_xor bitwise_left_shift : OpType
  bitwise_right_shift logic_not logic_and logic_xor logic_or equal not_equal if_else_flow : OpType
  iterate extract next comment_single_line comment_multi_line : OpType

pub OpType-discrete : Discrete OpType
OpType-discrete = hlevel

-- `StyioDataType`
pub record DataType : Type 0 where
  pub option : ℕ
  pub name : List ℕ
  pub num_of_bit : ℕ
  pub handle_family : ℕ
  pub state : ℕ
  pub capabilities : ℕ
  pub item_type_name : List ℕ
  pub key_type_name : List ℕ
  pub has_std_stream_kind : Bool
  pub std_stream_kind : ℕ
  pub value_family : ℕ
  pub item_value_family : ℕ
  pub key_value_family : ℕ
  pub is_resource_type : Bool
  pub resource_value_type_name : List ℕ
  pub resource_shape : ℕ
  pub resource_shape_bound : ℕ

mutual
  pub data Ir : Type 0 where
    null : Ir
    -- the id, and which of its earlier values is asked for
    res_id : List ℕ → Bool → ℕ → Ir
    dyn_load : List ℕ → ℕ → Ir
    const_bool : Bool → Ir
    const_int : List ℕ → ℕ → Ir
    const_float : List ℕ → Ir
    const_string : List ℕ → Ir
    cast : DataType → DataType → Ir
    -- the operation, its type, those of its operands, and the operands
    bin_op : OpType → DataType → DataType → DataType → Ir → Ir → Ir
    cond : OpType → Ir → Ir → Ir
    list_len : Ir → Ir
    dict_len : Ir → Ir
    list_get : List ℕ → Ir → Ir → Ir
    dict_get : List ℕ → Ir → Ir → Ir
    matrix_get : List ℕ → Ir → Ir → Ir → Ir
    matrix_row : List ℕ → Ir → Ir → Ir
    -- the name of the variable, if it has one, and the value
    flex_bind : Option (List ℕ) → Ir → Ir
    final_bind : Option (List ℕ) → Ir → Ir
    list_set : Ir → Ir → Ir → Ir
    dict_set : Ir → Ir → Ir → Ir
    block : Irs → Ir
    match_on : Ir → Arms → Ir → ℕ → Ir
    -- the condition and the body
    loop : Ir → Ir → Ir
    for_each : List ℕ → Ir → Ir → Ir
    range_for : List ℕ → Ir → Ir → Ir → Ir → Ir
    if_then : Ir → Ir → Ir → Ir
    return_of : Ir → Ir
    main_entry : Irs → Ir
    entry : Irs → Ir
    visited : ℕ → Irs → Ir
    opaque : ℕ → Ir

  pub data Irs : Type 0 where
    end : Irs
    stmt : Ir → Irs → Irs

  pub data Arms : Type 0 where
    no_arm : Arms
    arm : ℕ → Ir → Arms → Arms

-- `StyioDataType::equals`
unfoldable pub same_type : DataType → DataType → Bool
unfolding same_text
same_type s t =
    s.option == t.option
    && (same_text s.name t.name
        && (s.num_of_bit == t.num_of_bit
            && (s.handle_family == t.handle_family
                && (s.state == t.state
                    && (s.capabilities == t.capabilities
                        && (same_text s.item_type_name t.item_type_name
                            && (same_text s.key_type_name t.key_type_name
                                && (same_bool s.has_std_stream_kind t.has_std_stream_kind
                                    && (s.std_stream_kind == t.std_stream_kind
                                        && (s.value_family == t.value_family
                                            && (s.item_value_family == t.item_value_family
                                                && (s.key_value_family == t.key_value_family
                                                    && (same_bool s.is_resource_type
                                                          t.is_resource_type
                                                        && (same_text s.resource_value_type_name
                                                            t.resource_value_type_name
                                                            && (s.resource_shape == t.resource_shape
                                                            && s.resource_shape_bound
                                                            == t.resource_shape_bound)))))))))))))))

-- `lhs->operand == rhs->operand`
abbrev pub same_op : OpType → OpType → Bool
same_op a b = ite (OpType-discrete a b) true false

pub same_type→≡ : (s t : DataType) → same_type s t ≡ true → s ≡ t
unfolding same_type
same_type→≡ s t h =
    let h1 = and_split (s.option == t.option) h in
    let h2 = and_split (same_text s.name t.name) h1.1 in
    let h3 = and_split (s.num_of_bit == t.num_of_bit) h2.1 in
    let h4 = and_split (s.handle_family == t.handle_family) h3.1 in
    let h5 = and_split (s.state == t.state) h4.1 in
    let h6 = and_split (s.capabilities == t.capabilities) h5.1 in
    let h7 = and_split (same_text s.item_type_name t.item_type_name) h6.1 in
    let h8 = and_split (same_text s.key_type_name t.key_type_name) h7.1 in
    let h9 = and_split (same_bool s.has_std_stream_kind t.has_std_stream_kind) h8.1 in
    let h10 = and_split (s.std_stream_kind == t.std_stream_kind) h9.1 in
    let h11 = and_split (s.value_family == t.value_family) h10.1 in
    let h12 = and_split (s.item_value_family == t.item_value_family) h11.1 in
    let h13 = and_split (s.key_value_family == t.key_value_family) h12.1 in
    let h14 = and_split (same_bool s.is_resource_type t.is_resource_type) h13.1 in
    let h15 = and_split (same_text s.resource_value_type_name t.resource_value_type_name) h14.1 in
    let h16 = and_split (s.resource_shape == t.resource_shape) h15.1 in
    λ i. record {
      option = ((==_iff s.option t.option).0 h1.0) i;
      name = (same_text→≡ s.name t.name h2.0) i;
      num_of_bit = ((==_iff s.num_of_bit t.num_of_bit).0 h3.0) i;
      handle_family = ((==_iff s.handle_family t.handle_family).0 h4.0) i;
      state = ((==_iff s.state t.state).0 h5.0) i;
      capabilities = ((==_iff s.capabilities t.capabilities).0 h6.0) i;
      item_type_name = (same_text→≡ s.item_type_name t.item_type_name h7.0) i;
      key_type_name = (same_text→≡ s.key_type_name t.key_type_name h8.0) i;
      has_std_stream_kind = (same_bool_eq s.has_std_stream_kind t.has_std_stream_kind h9.0) i;
      std_stream_kind = ((==_iff s.std_stream_kind t.std_stream_kind).0 h10.0) i;
      value_family = ((==_iff s.value_family t.value_family).0 h11.0) i;
      item_value_family = ((==_iff s.item_value_family t.item_value_family).0 h12.0) i;
      key_value_family = ((==_iff s.key_value_family t.key_value_family).0 h13.0) i;
      is_resource_type = (same_bool_eq s.is_resource_type t.is_resource_type h14.0) i;
      resource_value_type_name =
          (same_text→≡ s.resource_value_type_name t.resource_value_type_name h15.0) i;
      resource_shape = ((==_iff s.resource_shape t.resource_shape).0 h16.0) i;
      resource_shape_bound = ((==_iff s.resource_shape_bound t.resource_shape_bound).0 h16.1) i;
    }
