-- ===== src/Registers/Tests.antt =====
-- Multi-value registers at concrete writes.
use lazily_go.Base.{◌∷◌, [], ℕ, ℕ_comparable, bool_comparable, option_comparable}
use lazily_go.Registers.{MvRegister}

abbrev left : MvRegister ℕ ℕ
left = record { stamps = 1 ∷ 4 ∷ []; values = 70 ∷ 71 ∷ [] }

abbrev right : MvRegister ℕ ℕ
right = record { stamps = 4 ∷ 6 ∷ []; values = 71 ∷ 72 ∷ [] }
