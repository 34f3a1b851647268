-- ===== src/Kernel/Ownership/Owning.antt =====
-- What it means that a type owns memory, by the declarations alone: boxes, vectors and texts do, and so
-- does what has a part that does. Names of aliases stand for what they name.
use sultanc.Prelude.{ℕ, zero, suc, ◌≡◌, some, List}
use sultanc.Frontend.Ast.{
  AstType, AstTypes, string, box, option, result, named, vector, mutable_of, StructField,
  EnumConstructor, DeclarationBody, struct_of, enum_of, alias_of, TypeDeclaration,
}
use sultanc.Kernel.Names.{Names}
use sultanc.Kernel.Types.{unwrap_mutable}
use sultanc.Kernel.Layout.{slot_types}
use sultanc.Kernel.Ownership.{payload_types}
use sultanc.Kernel.Ownership.Parts.{Among}

-- A named type is declared with a body.
abbrev pub Declares : Names → AstType → DeclarationBody → Type 0
Declares names t body =
    (entry : ℕ) × (declaration : TypeDeclaration) × (names.resolve_named_entry t ≡ some entry)
    × (names.declaration entry ≡ some declaration)
    × (declaration.body ≡ body)

-- A type that owns memory by itself.
pub data IsOwner (names : Names) : AstType → Type 0 where
  box_owner : (t : AstType) → IsOwner names (box t)
  vector_owner : (t : AstType) → IsOwner names (vector t)
  text_owner : IsOwner names string
  mutable_owner : (t : AstType) → IsOwner names t → IsOwner names (mutable_of t)
  alias_owner :
      (address : ℕ) (name : List ℕ) (arguments : AstTypes) (target : AstType)
      → Declares names (named address name arguments) (alias_of target)
      → IsOwner names target
      → IsOwner names (named address name arguments)

-- A value of the type holds one of type `u`.
pub data IsPart (names : Names) (u : AstType) : AstType → Type 0 where
  option_part : IsPart names u (option u)
  ok_part : (error : AstType) → IsPart names u (result u error)
  error_part : (ok : AstType) → IsPart names u (result ok u)
  mutable_part : (t : AstType) → IsPart names u t → IsPart names u (mutable_of t)
  alias_part :
      (address : ℕ) (name : List ℕ) (arguments : AstTypes) (target : AstType)
      → Declares names (named address name arguments) (alias_of target)
      → IsPart names u target
      → IsPart names u (named address name arguments)
  field_part :
      (address : ℕ) (name : List ℕ) (arguments : AstTypes) (fields : List StructField)
      → Declares names (named address name arguments) (struct_of fields)
      → Among u (slot_types fields)
      → IsPart names u (named address name arguments)
  payload_part :
      (address : ℕ) (name : List ℕ) (arguments : AstTypes) (constructors : List EnumConstructor)
      → Declares names (named address name arguments) (enum_of constructors)
      → Among u (payload_types constructors)
      → IsPart names u (named address name arguments)

-- A type that owns memory: itself, or through its parts.
pub data Owns (names : Names) : AstType → Type 0 where
  itself : (t : AstType) → IsOwner names t → Owns names t
  through_part : (t u : AstType) → IsPart names u t → Owns names u → Owns names t

-- A chain of parts of a length starts at the type.
abbrev pub NestedIn : Names → ℕ → AstType → Type 0
NestedIn names zero t = Unit {0}
NestedIn names (suc depth) t = (u : AstType) × IsPart names u t × NestedIn names depth u

-- Types whose parts the search finds behind the name of an alias.
abbrev pub IsLookedInto : AstType → Type 0
IsLookedInto (option t) = ⊥
IsLookedInto (result ok error) = ⊥
IsLookedInto _ = Unit {0}

-- No alias is declared as an option or a result.
abbrev pub HidesNothing : Names → Type 0
HidesNothing names =
    (t target : AstType) → Declares names t (alias_of target) → IsLookedInto (unwrap_mutable target)
