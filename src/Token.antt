-- ===== src/Token.antt =====
-- src/StyioToken/Token.hpp: the types of tokens, and a token as its type and its text.
pub mod Shape
use styio.Prelude.{ℕ, Bool, List, ◌==◌}

-- `StyioTokenType`
pub data TokenType : Type 0 where
  tok_eof tok_null tok_lf tok_cr tok_space tok_exclam tok_dquote tok_hash tok_dollar : TokenType
  tok_percent tok_amp tok_squote tok_lparen tok_rparen tok_star tok_plus tok_comma tok_minus :
      TokenType
  tok_dot tok_slash tok_colon tok_semicolon tok_langbrac tok_equal tok_rangbrac tok_quest :
      TokenType
  tok_at tok_lboxbrac tok_backslash tok_rboxbrac tok_hat tok_undline tok_bquote tok_lcurbrac :
      TokenType
  tok_pipe tok_rcurbrac tok_tilde tok_del name integer decimal string comment_line : TokenType
  comment_closed native_extern_body binop_bitand binop_bitor binop_bitxor extractor iterator :
      TokenType
  logic_not logic_and logic_or logic_xor unary_neg binop_add binop_sub binop_mul binop_div :
      TokenType
  binop_mod binop_pow binop_gt binop_ge binop_lt binop_le binop_eq binop_ne print walrus match :
      TokenType
  yield_pipe return_pipe await_pipe pipe_semicolon task_launch arrow_double_right : TokenType
  arrow_double_left arrow_single_right arrow_single_left ellipsis infinite_list : TokenType
  bounded_buffer_open bounded_buffer_close single_sep_line double_sep_line compound_add : TokenType
  compound_sub compound_mul compound_div compound_mod wave_left wave_right dbquestion unknown :
      TokenType

-- The enumerator's value plus one, since `TOK_EOF` is -1.
abbrev pub value : TokenType → ℕ
value tok_eof = 0
value tok_null = 1
value tok_lf = 11
value tok_cr = 14
value tok_space = 33
value tok_exclam = 34
value tok_dquote = 35
value tok_hash = 36
value tok_dollar = 37
value tok_percent = 38
value tok_amp = 39
value tok_squote = 40
value tok_lparen = 41
value tok_rparen = 42
value tok_star = 43
value tok_plus = 44
value tok_comma = 45
value tok_minus = 46
value tok_dot = 47
value tok_slash = 48
value tok_colon = 59
value tok_semicolon = 60
value tok_langbrac = 61
value tok_equal = 62
value tok_rangbrac = 63
value tok_quest = 64
value tok_at = 65
value tok_lboxbrac = 92
value tok_backslash = 93
value tok_rboxbrac = 94
value tok_hat = 95
value tok_undline = 96
value tok_bquote = 97
value tok_lcurbrac = 124
value tok_pipe = 125
value tok_rcurbrac = 126
value tok_tilde = 127
value tok_del = 128
value name = 1025
value integer = 1026
value decimal = 1027
value string = 1028
value comment_line = 1029
value comment_closed = 1030
value native_extern_body = 1031
value binop_bitand = 1032
value binop_bitor = 1033
value binop_bitxor = 1034
value extractor = 1035
value iterator = 1036
value logic_not = 1037
value logic_and = 1038
value logic_or = 1039
value logic_xor = 1040
value unary_neg = 1041
value binop_add = 1042
value binop_sub = 1043
value binop_mul = 1044
value binop_div = 1045
value binop_mod = 1046
value binop_pow = 1047
value binop_gt = 1048
value binop_ge = 1049
value binop_lt = 1050
value binop_le = 1051
value binop_eq = 1052
value binop_ne = 1053
value print = 1054
value walrus = 1055
value match = 1056
value yield_pipe = 1057
value return_pipe = 1058
value await_pipe = 1059
value pipe_semicolon = 1060
value task_launch = 1061
value arrow_double_right = 1062
value arrow_double_left = 1063
value arrow_single_right = 1064
value arrow_single_left = 1065
value ellipsis = 1066
value infinite_list = 1067
value bounded_buffer_open = 1068
value bounded_buffer_close = 1069
value single_sep_line = 1070
value double_sep_line = 1071
value compound_add = 1072
value compound_sub = 1073
value compound_mul = 1074
value compound_div = 1075
value compound_mod = 1076
value wave_left = 1077
value wave_right = 1078
value dbquestion = 1079
value unknown = 1080

-- `a == b` on token types
abbrev pub same_type : TokenType → TokenType → Bool
same_type a b = value a == value b

-- `StyioToken`
pub record Token : Type 0 where
  pub kind : TokenType
  pub original : List ℕ

-- `StyioToken::Create`
abbrev pub token : TokenType → List ℕ → Token
token kind original = record { kind = kind; original = original }
