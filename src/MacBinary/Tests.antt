-- ===== src/MacBinary/Tests.antt =====
-- A MacBinary header with 5 bytes of data and 3 of resources.
use darling_dmg.Common.{◌≡◌, refl, [], ◌∷◌, ◌++◌, Bytes, replicate}
use darling_dmg.Io.Serves.{Serves}
use darling_dmg.MacBinary.{resource_start}
use darling_dmg.MacBinary.Forks

abbrev header : Bytes
header = replicate 86 0 ++ (5 ∷ 0 ∷ 0 ∷ 0 ∷ 3 ∷ replicate 37 0)

abbrev file : Bytes
file = header ++ (1 ∷ 2 ∷ 3 ∷ 4 ∷ 5 ∷ replicate 123 0) ++ (6 ∷ 7 ∷ 8 ∷ [])

resources_at : resource_start header ≡ 256
unfolding resource_start
resources_at = refl
