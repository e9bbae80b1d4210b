-- ===== src/Intern.antt =====
-- Numbering of values in the order in which they are first seen: the hash map from a value to its
-- row, and the vector of values by row. native_utils.cpp writes this out for values, and sampler.h
-- for node instances (`add_node`).
pub mod Laws
use starrygl_tmp.Prelude.{ℕ, Option, none, some, List, [], ◌∷◌, ◌++◌, length}
use starrygl_tmp.Phmap.{HashMap}

module _ {K : Type 0} (hm : HashMap K ℕ) where
  pub record Table : Type 0 where
    pub seen : hm.Map
    pub unique : List K

  abbrev pub empty_table : Table
  empty_table = record { seen = hm.empty; unique = [] }

  -- The row of the value, which is a new row if the value is new.
  unfoldable pub intern : Table → K → Table × ℕ
  intern t value = elim (hm.find t.seen value) [
    | none ↦
        let row = length t.unique in
        (record { seen = hm.emplace t.seen value row; unique = t.unique ++ value ∷ [] }, row)
    | some row ↦ (t, row)
  ]

  -- A loop over values, with the row of each.
  unfoldable pub intern_all : Table → List K → Table × List ℕ
  unfolding intern
  intern_all t [] = (t, [])
  intern_all t (value ∷ values) =
      let (t', row) = intern t value in let (t'', rows) = intern_all t' values in (t'', row ∷ rows)
