-- ===== src/Checks/Bitmaps.antt =====
-- A bitmap of three bits in ex-utility/src/dynamic_bitmap.cpp that grows.
use isu_net.Base.{Bool, List, [], false, true, ◌∷◌}

abbrev three : List Bool
three = true ∷ false ∷ true ∷ []
