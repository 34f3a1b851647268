-- ===== src/Kernel/Ownership/Parts.antt =====
-- The parts of a type, and what the search for an owner or a view looks for in them.
use sultanc.Prelude.{◌≡◌, refl, inl, inr, ◌⊎◌, List, [], ◌∷◌}
use sultanc.Frontend.Ast.{AstType}
use sultanc.Kernel.Compatibility.{Verdict, agree, differ, confused, out_of_fuel}
use sultanc.Kernel.Ownership.{or_else, any_part}

-- An element of a list of parts.
pub data Among (u : AstType) : List AstType → Type 0 where
  first : (ts : List AstType) → Among u (u ∷ ts)
  later : (t : AstType) (ts : List AstType) → Among u ts → Among u (t ∷ ts)

-- A calculation that came to 1 or to 0.
abbrev pub Settled : Verdict → Type 0
Settled agree = Unit {0}
Settled differ = Unit {0}
Settled confused = ⊥
Settled out_of_fuel = ⊥

pub or_else-agree : (v w : Verdict) → or_else v w ≡ agree → (v ≡ agree) ⊎ (w ≡ agree)
or_else-agree agree w h = inl refl
or_else-agree differ w h = inr h
or_else-agree confused w h = cc
or_else-agree out_of_fuel w h = cc

pub or_else-Settled : (v w : Verdict) → Settled v → Settled w → Settled (or_else v w)
or_else-Settled agree w h k = tt
or_else-Settled differ w h k = k
or_else-Settled confused w h k = h
or_else-Settled out_of_fuel w h k = h

pub agree-or_else : (v w : Verdict) → Settled v → w ≡ agree → or_else v w ≡ agree
agree-or_else agree w h k = refl
agree-or_else differ w h k = k
agree-or_else confused w h k = absurd h
agree-or_else out_of_fuel w h k = absurd h

module _ (again : AstType → Verdict) where
  pub any_part-agree :
      (ts : List AstType)
      → any_part again ts ≡ agree
      → (u : AstType) × Among u ts × (again u ≡ agree)
  unfolding any_part
  any_part-agree [] h = cc
  any_part-agree (t ∷ ts) h = elim (or_else-agree (again t) (any_part again ts) h) [
    | inl now ↦ (t, first ts, now)
    | inr rest ↦ let (u, m, e) = any_part-agree ts rest in (u, later t ts m, e)
  ]

  module _ (settled : (t : AstType) → Settled (again t)) where
    pub any_part-Settled : (ts : List AstType) → Settled (any_part again ts)
    unfolding any_part
    any_part-Settled [] = tt
    any_part-Settled (t ∷ ts) =
        or_else-Settled (again t) (any_part again ts) (settled t) (any_part-Settled ts)

    pub agree-any_part :
        (u : AstType) (ts : List AstType) → Among u ts → again u ≡ agree → any_part again ts ≡ agree
    unfolding any_part
    agree-any_part u [] m e = elim m [ ]
    agree-any_part u (t ∷ ts) (first _) e = rw e
    agree-any_part u (t ∷ ts) (later _ _ m) e =
        agree-or_else (again t) (any_part again ts) (settled t) (agree-any_part u ts m e)
