-- ===== src/Kernel/Builtins.antt =====
-- The built-in types: bootstrap/include/private/kernel/type/type_registry.def, read by builtin.h and
-- bootstrap/src/kernel/type/type_builtin.c, and the node that stands for each in type_resolve.c. The
-- invalid id is `none`.
use sultanc.Prelude.{ℕ, Bool, true, false, Option, none, some, List, [], ◌∷◌}
use sultanc.Frontend.Ast.{
  MachineType, machine_i8, machine_i16, machine_i32, machine_i64, machine_u8, machine_u16,
  machine_u32, machine_u64, machine_f32, machine_f64, AstType, any, boolean, machine, integer,
  unsigned_integer, character, string, void,
}

-- `__Type_Builtin_Id__`
pub data BuiltinId : Type 0 where
  builtin_any builtin_bool builtin_string builtin_char builtin_int builtin_uint builtin_void :
      BuiltinId
  builtin_i8 builtin_i16 builtin_i32 builtin_i64 builtin_u8 builtin_u16 builtin_u32 builtin_u64
        builtin_f32 builtin_f64 :
      BuiltinId

-- `__Type_Builtin_Class__`
pub data BuiltinClass : Type 0 where
  class_unknown class_boolean class_signed_integer class_unsigned_integer class_float : BuiltinClass
  class_character class_string class_void : BuiltinClass

-- `__Type_Builtin_Descriptor__`
pub record BuiltinDescriptor : Type 0 where
  pub id : BuiltinId
  pub builtin_class : BuiltinClass
  pub bits : ℕ
  pub scalar : Bool
  pub signed : Bool
  pub diagnostic_name : List ℕ

abbrev pub descriptor : BuiltinId → BuiltinClass → ℕ → Bool → Bool → List ℕ → BuiltinDescriptor
descriptor id builtin_class bits scalar signed diagnostic_name = record {
  id = id;
  builtin_class = builtin_class;
  bits = bits;
  scalar = scalar;
  signed = signed;
  diagnostic_name = diagnostic_name;
}

-- `__Type_Builtins__`, as `__Type_Builtin_Get_Descriptor__` reads it.
unfoldable pub get_descriptor : BuiltinId → BuiltinDescriptor
get_descriptor builtin_any =
    descriptor builtin_any class_unknown 0 false false (b'a' ∷ b'n' ∷ b'y' ∷ [])
get_descriptor builtin_bool =
    descriptor builtin_bool class_boolean 1 true false (b'b' ∷ b'o' ∷ b'o' ∷ b'l' ∷ [])
get_descriptor builtin_string =
    descriptor builtin_string class_string 0 false false
      (b's' ∷ b't' ∷ b'r' ∷ b'i' ∷ b'n' ∷ b'g' ∷ [])
get_descriptor builtin_char =
    descriptor builtin_char class_character 32 true false (b'c' ∷ b'h' ∷ b'a' ∷ b'r' ∷ [])
get_descriptor builtin_int =
    descriptor builtin_int class_signed_integer 64 true true (b'i' ∷ b'n' ∷ b't' ∷ [])
get_descriptor builtin_uint =
    descriptor builtin_uint class_unsigned_integer 64 true false (b'u' ∷ b'i' ∷ b'n' ∷ b't' ∷ [])
get_descriptor builtin_void =
    descriptor builtin_void class_void 0 false false (b'v' ∷ b'o' ∷ b'i' ∷ b'd' ∷ [])
get_descriptor builtin_i8 =
    descriptor builtin_i8 class_signed_integer 8 true true (b'i' ∷ b'8' ∷ [])
get_descriptor builtin_i16 =
    descriptor builtin_i16 class_signed_integer 16 true true (b'i' ∷ b'1' ∷ b'6' ∷ [])
get_descriptor builtin_i32 =
    descriptor builtin_i32 class_signed_integer 32 true true (b'i' ∷ b'3' ∷ b'2' ∷ [])
get_descriptor builtin_i64 =
    descriptor builtin_i64 class_signed_integer 64 true true (b'i' ∷ b'6' ∷ b'4' ∷ [])
get_descriptor builtin_u8 =
    descriptor builtin_u8 class_unsigned_integer 8 true false (b'u' ∷ b'8' ∷ [])
get_descriptor builtin_u16 =
    descriptor builtin_u16 class_unsigned_integer 16 true false (b'u' ∷ b'1' ∷ b'6' ∷ [])
get_descriptor builtin_u32 =
    descriptor builtin_u32 class_unsigned_integer 32 true false (b'u' ∷ b'3' ∷ b'2' ∷ [])
get_descriptor builtin_u64 =
    descriptor builtin_u64 class_unsigned_integer 64 true false (b'u' ∷ b'6' ∷ b'4' ∷ [])
get_descriptor builtin_f32 =
    descriptor builtin_f32 class_float 32 true true (b'f' ∷ b'3' ∷ b'2' ∷ [])
get_descriptor builtin_f64 =
    descriptor builtin_f64 class_float 64 true true (b'f' ∷ b'6' ∷ b'4' ∷ [])

-- The cases of `__Type_Builtin_Id_From_Ast__` for a machine type.
abbrev pub machine_id : MachineType → BuiltinId
machine_id machine_i8 = builtin_i8
machine_id machine_i16 = builtin_i16
machine_id machine_i32 = builtin_i32
machine_id machine_i64 = builtin_i64
machine_id machine_u8 = builtin_u8
machine_id machine_u16 = builtin_u16
machine_id machine_u32 = builtin_u32
machine_id machine_u64 = builtin_u64
machine_id machine_f32 = builtin_f32
machine_id machine_f64 = builtin_f64

-- `__Type_Builtin_Id_From_Ast__`
unfoldable pub builtin_id_from_ast : AstType → Option BuiltinId
builtin_id_from_ast any = some builtin_any
builtin_id_from_ast boolean = some builtin_bool
builtin_id_from_ast string = some builtin_string
builtin_id_from_ast character = some builtin_char
builtin_id_from_ast integer = some builtin_int
builtin_id_from_ast unsigned_integer = some builtin_uint
builtin_id_from_ast void = some builtin_void
builtin_id_from_ast (machine m) = some (machine_id m)
builtin_id_from_ast _ = none
