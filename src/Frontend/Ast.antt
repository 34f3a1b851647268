-- ===== src/Frontend/Ast.antt =====
-- Nodes of the syntax tree for types: bootstrap/include/private/frontend/ast/base.h and type.h. A
-- pointer to a node is the node; `missing` is the null pointer. An array with its count is a list of
-- nodes. A named node carries its address, by which the compiler keeps the unit that wrote it.
use sultanc.Prelude.{ℕ, List}

-- `__Machine_Type__`
pub data MachineType : Type 0 where
  machine_i8 machine_i16 machine_i32 machine_i64 : MachineType
  machine_u8 machine_u16 machine_u32 machine_u64 : MachineType
  machine_f32 machine_f64 : MachineType

mutual
  -- `__Ast_Type__`
  pub data AstType : Type 0 where
    missing any boolean : AstType
    machine : MachineType → AstType
    integer unsigned_integer character string : AstType
    box option : AstType → AstType
    result : AstType → AstType → AstType
    function : AstTypes → AstType → AstType
    named : ℕ → List ℕ → AstTypes → AstType
    pointer reference vector mutable_of : AstType → AstType
    void : AstType

  pub data AstTypes : Type 0 where
    no_types : AstTypes
    type_then : AstType → AstTypes → AstTypes

-- `__Ast_Struct_Field__`; a slot is its type.
pub record StructField : Type 0 where
  pub name : List ℕ
  pub slot : AstType

-- `__Ast_Enum_Constructor__`
pub record EnumConstructor : Type 0 where
  pub name : List ℕ
  pub payload_slots : List AstType

-- `__Ast_Type_Decl_Kind__` with the union of `__Ast_Type_Declaration__`.
pub data DeclarationBody : Type 0 where
  struct_of : List StructField → DeclarationBody
  enum_of : List EnumConstructor → DeclarationBody
  alias_of : AstType → DeclarationBody

-- `__Ast_Type_Declaration__`
pub record TypeDeclaration : Type 0 where
  pub name : List ℕ
  pub type_parameters : List (List ℕ)
  pub body : DeclarationBody
