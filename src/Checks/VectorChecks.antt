-- ===== src/Checks/VectorChecks.antt =====
-- The theorems on the vector and on the growth loop at concrete inputs.
use sultanc.Prelude.{ℕ, ◌≡◌, length, refl, arith, Bool, true, some, List, [], ◌∷◌}
use sultanc.Support.Growth.{double_until}
use sultanc.Support.Vector.{Vector, init, push}
use sultanc.Support.Vector.Refinement.{Represents, init-Represents, push-Represents}
use sultanc.Support.Vector.Progress.{push_succeeds}

abbrev grants_all : ℕ → Bool
grants_all bytes = true

abbrev empty : Vector ℕ
unfolding init
empty = init 8

abbrev empty_list : List ℕ
empty_list = []

abbrev one : Vector ℕ
unfolding push
one = (push grants_all empty 42).0

empty-Represents : Represents empty []
unfolding empty
empty-Represents = init-Represents 8

push-Represents_example : Represents one (42 ∷ []) × (0 ≡ length empty_list)
unfolding one empty double_until
push-Represents_example =
    push-Represents grants_all empty one empty_list 42 0 empty-Represents (omega arith) refl

one-Represents : Represents one (42 ∷ [])
unfolding one empty double_until
one-Represents =
    (push-Represents grants_all empty one [] 42 0 empty-Represents (omega arith) refl).0

push_succeeds_example : (push grants_all empty 42).1 ≡ some 0
unfolding empty
push_succeeds_example =
    push_succeeds grants_all (λ bytes. refl) empty [] 42 empty-Represents (omega arith)
      (omega arith) (omega arith) (omega arith)
