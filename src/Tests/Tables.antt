-- ===== src/Tests/Tables.antt =====
-- Hash tables of strings under many calls.
use operating_system_concept.Base.{ℕ, List, [], ◌∷◌}
use operating_system_concept.Hash.Refine.{HashOp, set_key, del_key}

-- The number of an address is its one char.
abbrev chars : ℕ → List ℕ
chars a = a ∷ []

-- Six keys, so that the table grows to 16 slots; one of them is deleted and one set again.
abbrev calls : List HashOp
calls =
    set_key 1 10
    ∷ set_key 2 20
    ∷ set_key 3 30
    ∷ set_key 4 40
    ∷ set_key 5 50
    ∷ set_key 6 60
    ∷ del_key 3
    ∷ set_key 2 21
    ∷ []
