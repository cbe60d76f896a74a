-- ===== src/App/Eal/Tests.antt =====
-- app/application.cpp: a start of DPDK whose arguments are looked at.
use traffic_generator.Base.{ℕ, true, Bool, Option, some, List, [], ◌∷◌}
use traffic_generator.Put.Text.{Text}

-- The numbers below ten.
abbrev one_digit : ℕ → Text
one_digit n = b'3' ∷ []

abbrev primary : List ℕ → (ℕ → ℕ) → Option Bool
primary args mem = some true

abbrev no_memory : ℕ → ℕ
no_memory i = 0
