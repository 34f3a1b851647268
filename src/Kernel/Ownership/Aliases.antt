-- ===== src/Kernel/Ownership/Aliases.antt =====
-- Names of aliases of options and results are not looked into.
use sultanc.Prelude.{ℕ, suc, ◌≡◌, List, some}
use sultanc.Frontend.Ast.{AstType, option, named, AstTypes, alias_of, TypeDeclaration}
use sultanc.Kernel.Names.{Names}
use sultanc.Kernel.Types.{resolve}
use sultanc.Kernel.Compatibility.{differ}
use sultanc.Kernel.Ownership.{type_is_owned}

-- A name of an alias of an option is never owned, whatever the option holds.
pub type_is_owned-alias_of_option :
    (rounds : ℕ) (names : Names) (address : ℕ) (name : List ℕ) (arguments : AstTypes) (entry : ℕ)
    (declaration : TypeDeclaration) (payload : AstType)
    → names.resolve_named_entry (named address name arguments) ≡ some entry
    → names.declaration entry ≡ some declaration
    → declaration.body ≡ alias_of (option payload)
    → type_is_owned (suc (suc rounds)) names (named address name arguments) ≡ differ
unfolding type_is_owned resolve
type_is_owned-alias_of_option rounds names address name arguments entry declaration payload h k e =
    rw (h, k, e)
