-- ===== src/Native/Slice/Order.antt =====
-- The comparison of the edges of a slice orders them by chunk, destination and edge id.
use starrygl_tmp.Prelude.{ltb_ℤ, ℤ-discrete}
use starrygl_tmp.Sort.Laws.{IsStrictWeak}
use starrygl_tmp.Sort.Lex.{ltb_ℤ-IsStrictTotal, lex_less-IsStrictWeak, by_key-IsStrictWeak}
use starrygl_tmp.Native.Slice.{Edge, edge_less}

pub edge_less-IsStrictWeak : IsStrictWeak edge_less
unfolding edge_less
edge_less-IsStrictWeak =
    lex_less-IsStrictWeak ℤ-discrete (λ (e : Edge). e.chunk) ltb_ℤ _ ltb_ℤ-IsStrictTotal
      (lex_less-IsStrictWeak ℤ-discrete (λ (e : Edge). e.dst) ltb_ℤ _ ltb_ℤ-IsStrictTotal
        (by_key-IsStrictWeak (λ (e : Edge). e.gid) ltb_ℤ ltb_ℤ-IsStrictTotal.weak))
