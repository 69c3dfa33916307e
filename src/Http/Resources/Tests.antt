-- ===== src/Http/Resources/Tests.antt =====
-- The paths of the resources.
use eerie_leap_rt.Common.{◌≡◌, refl, [], ◌∷◌, codes, map, List, ℕ}
use eerie_leap_rt.Http.Tests.{sample}
use eerie_leap_rt.Http.Resources.{Resource, dynamic, static_file, resources}

path_of : Resource sample → List ℕ
path_of (dynamic path _) = path
path_of (static_file path _) = path

paths : map path_of (resources sample []) ≡ codes "/api/sensors/config" ∷ codes "/" ∷ []
unfolding resources path_of
paths = refl
