-- ===== src/Kernel/Compatibility/Aliases.antt =====
-- Names of aliases of result types: their nodes are read as results.
use sultanc.Prelude.{ℕ, suc, ◌≡◌, List, some}
use sultanc.Frontend.Ast.{AstType, result, named, AstTypes, alias_of, TypeDeclaration}
use sultanc.Kernel.Names.{Names}
use sultanc.Kernel.Compatibility.{confused, compatible}

-- A name of an alias of a result type cannot be compared with a result type: the payloads are read
-- out of the named node.
pub compatible-alias_of_result :
    (fuel : ℕ) (names : Names) (address : ℕ) (name : List ℕ) (arguments : AstTypes) (entry : ℕ)
    (declaration : TypeDeclaration) (ok error ok' error' : AstType)
    → names.resolve_named_entry (named address name arguments) ≡ some entry
    → names.declaration entry ≡ some declaration
    → declaration.body ≡ alias_of (result ok error)
    → compatible (suc (suc fuel)) names (named address name arguments) (result ok' error')
      ≡ confused
unfolding compatible
compatible-alias_of_result fuel names address name arguments entry declaration ok error ok' error' h
      k e =
    rw (h, k, e)
