-- ===== src/Prelude/Faults.antt =====
-- The script of failures that a store's state carries: whether each coming statement fails, and none
-- after its end.
use mathlib.Core.Bool.{Bool, false}
use mathlib.Core.List.{List, [], ◌∷◌}

abbrev pub fails : List Bool → Bool
fails [] = false
fails (b ∷ bs) = b

abbrev pub later : List Bool → List Bool
later [] = []
later (b ∷ bs) = bs
