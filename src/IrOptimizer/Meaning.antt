-- ===== src/IrOptimizer/Meaning.antt =====
-- What the nodes of the intermediate representation mean, as far as the passes of
-- src/StyioLowering/StyioIROptimizer.cpp rely on it: an expression has a value made of those of the
-- names it reads, a bind writes one name, and a block runs its statements. All else is a parameter.
use styio.Prelude.{ℕ, Bool, Option, none, some, List, ◌==◌, if◌then◌else◌}
use styio.Prelude.Texts.{same_text}
use styio.IrOptimizer.{
  OpType, DataType, Ir, Irs, Arms, null, res_id, dyn_load, const_bool, const_int, const_float,
  const_string, cast, bin_op, cond, list_len, dict_len, list_get, dict_get, matrix_get, matrix_row,
  flex_bind, final_bind, block, match_on, end, stmt, no_arm, arm,
}

-- The values of a program, and its operations on them.
pub record Machine (A : Type 0) : Type 0 where
  -- the value of a variable that holds one, or an earlier value; what a write makes of the held one
  pub read : Bool → ℕ → A → A
  pub write : A → A → A
  pub load : ℕ → A → A
  pub bool_of : Bool → A
  pub int_of : List ℕ → ℕ → A
  pub float_of : List ℕ → A
  pub string_of : List ℕ → A
  pub cast_of : DataType → DataType → A
  pub operate : OpType → DataType → DataType → DataType → A → A → A
  pub compare_by : OpType → A → A → A
  pub length_of : A → A
  pub size_of : A → A
  pub item_of : List ℕ → A → A → A
  pub entry_of : List ℕ → A → A → A
  pub cell_of : List ℕ → A → A → A → A
  pub row_of : List ℕ → A → A → A
  -- the number that a match compares with its arms
  pub number : A → ℕ
  -- the value of any other node, and what running any other statement does
  pub other_value : Ir → (List ℕ → A) → A
  pub run : Ir → (List ℕ → A) → List ℕ → A

module _ {A : Type 0} (m : Machine A) where
  abbrev pub put : (List ℕ → A) → List ℕ → A → List ℕ → A
  put env name value other = if same_text name other then m.write (env other) value else env other

  abbrev pub value_of : Ir → (List ℕ → A) → A
  value_of (res_id id history offset) env = m.read history offset (env id)
  value_of (dyn_load var_name kind) env = m.load kind (env var_name)
  value_of (const_bool value) env = m.bool_of value
  value_of (const_int value bits) env = m.int_of value bits
  value_of (const_float value) env = m.float_of value
  value_of (const_string value) env = m.string_of value
  value_of (cast from to) env = m.cast_of from to
  value_of (bin_op op type lhs_type rhs_type l r) env =
      m.operate op type lhs_type rhs_type (value_of l env) (value_of r env)
  value_of (cond op l r) env = m.compare_by op (value_of l env) (value_of r env)
  value_of (list_len list) env = m.length_of (value_of list env)
  value_of (dict_len dict) env = m.size_of (value_of dict env)
  value_of (list_get elem list index) env = m.item_of elem (value_of list env) (value_of index env)
  value_of (dict_get elem dict key) env = m.entry_of elem (value_of dict env) (value_of key env)
  value_of (matrix_get elem matrix row col) env =
      m.cell_of elem (value_of matrix env) (value_of row env) (value_of col env)
  value_of (matrix_row elem matrix row) env = m.row_of elem (value_of matrix env) (value_of row env)
  value_of null env = m.other_value null env
  value_of ir env = m.other_value ir env

  abbrev pub bound : Option (List ℕ) → A → (List ℕ → A) → List ℕ → A
  bound none value env = env
  bound (some name) value env = put env name value

  unfoldable mutual
    pub effect : Ir → (List ℕ → A) → List ℕ → A
    effect null env = env
    effect (flex_bind var value) env = bound var (value_of value env) env
    effect (final_bind var value) env = bound var (value_of value env) env
    effect (block stmts) env = effects stmts env
    effect (match_on scrutinee arms default kind) env =
        arm_effect (m.number (value_of scrutinee env)) arms (effect default env) env
    effect s env = m.run s env

    pub effects : Irs → (List ℕ → A) → List ℕ → A
    effects end env = env
    effects (stmt s stmts) env = effects stmts (effect s env)

    -- the first arm with the number, or else what is given
    pub arm_effect : ℕ → Arms → (List ℕ → A) → (List ℕ → A) → List ℕ → A
    arm_effect n no_arm otherwise env = otherwise
    arm_effect n (arm value body arms) otherwise env =
        if value == n then effect body env else arm_effect n arms otherwise env
