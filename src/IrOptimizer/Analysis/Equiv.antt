-- ===== src/IrOptimizer/Analysis/Equiv.antt =====
-- What the comparisons of src/StyioLowering/StyioIROptimizer.cpp show of a node.
use mathlib.Core.Logic.{ite}
use styio.Prelude.{ℕ, Bool, true, false, List, ◌≡◌, arith}
use styio.IrOptimizer.{
  OpType, OpType-discrete, DataType, Ir, same_op, null, res_id, dyn_load, const_bool, const_int,
  const_float, const_string, bin_op, cond, list_len, dict_len,
}
use styio.IrOptimizer.Analysis.{
  is_null, same_res_id, same_dyn_load, same_const_bool, same_const_int, same_const_float,
  same_const_string, same_bin_op, same_cond, same_list_len, same_dict_len,
}

ite_true : {P : Type 0} (d : Dec P) → ite d true false ≡ true → P
ite_true (yes p) h = p
ite_true (no n) h = absurd (ground arith)

-- What a comparison that holds shows of the other node.
pub same_op→≡ : (a b : OpType) → same_op a b ≡ true → a ≡ b
same_op→≡ a b h = ite_true (OpType-discrete a b) h

pub bin_op_shape :
    (op : OpType) (s t u : DataType) (l r : Ir → Bool) (b : Ir)
    → same_bin_op op s t u l r b ≡ true
    → (op' : OpType) × (s' t' u' : DataType) × (l' r' : Ir) × (b ≡ bin_op op' s' t' u' l' r')
bin_op_shape op s t u l r b h = ground arith

pub cond_shape :
    (op : OpType) (l r : Ir → Bool) (b : Ir)
    → same_cond op l r b ≡ true
    → (op' : OpType) × (l' r' : Ir) × (b ≡ cond op' l' r')
cond_shape op l r b h = ground arith

pub list_len_shape :
    (l : Ir → Bool) (b : Ir) → same_list_len l b ≡ true → (l' : Ir) × (b ≡ list_len l')
list_len_shape l b h = ground arith

pub dict_len_shape :
    (l : Ir → Bool) (b : Ir) → same_dict_len l b ≡ true → (l' : Ir) × (b ≡ dict_len l')
dict_len_shape l b h = ground arith

pub null_shape : (b : Ir) → is_null b ≡ true → b ≡ null
null_shape b h = ground arith

pub res_id_shape :
    (id : List ℕ) (b : Ir)
    → same_res_id id b ≡ true
    → (id' : List ℕ) × (history : Bool) × (offset : ℕ) × (b ≡ res_id id' history offset)
res_id_shape id b h = ground arith

pub dyn_load_shape :
    (name : List ℕ) (kind : ℕ) (b : Ir)
    → same_dyn_load name kind b ≡ true
    → (name' : List ℕ) × (kind' : ℕ) × (b ≡ dyn_load name' kind')
dyn_load_shape name kind b h = ground arith

pub const_bool_shape :
    (value : Bool) (b : Ir)
    → same_const_bool value b ≡ true
    → (value' : Bool) × (b ≡ const_bool value')
const_bool_shape value b h = ground arith

pub const_int_shape :
    (value : List ℕ) (bits : ℕ) (b : Ir)
    → same_const_int value bits b ≡ true
    → (value' : List ℕ) × (bits' : ℕ) × (b ≡ const_int value' bits')
const_int_shape value bits b h = ground arith

pub const_float_shape :
    (value : List ℕ) (b : Ir)
    → same_const_float value b ≡ true
    → (value' : List ℕ) × (b ≡ const_float value')
const_float_shape value b h = ground arith

pub const_string_shape :
    (value : List ℕ) (b : Ir)
    → same_const_string value b ≡ true
    → (value' : List ℕ) × (b ≡ const_string value')
const_string_shape value b h = ground arith
