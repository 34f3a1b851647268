-- ===== src/Kernel/Names.antt =====
-- What the kernels of types, layout and memory ask of the semantic context
-- (bootstrap/include/private/semantic/context.h) about named types.
use sultanc.Prelude.{ℕ, Option}
use sultanc.Frontend.Ast.{AstType, TypeDeclaration}

-- An entry is known by its address. `resolve_named_entry` is the entry that
-- `__Semantic_Resolve_Named_Entry__` finds for a named node, with `none` for the answer 0;
-- `declaration` is the field `__Declaration__` of an entry, with `none` for a null pointer.
pub record Names : Type 0 where
  pub resolve_named_entry : AstType → Option ℕ
  pub declaration : ℕ → Option TypeDeclaration
