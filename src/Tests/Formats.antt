-- ===== src/Tests/Formats.antt =====
-- Runs of the format parser.
use aura_old.Base.{◌≡◌, refl, ◌≢◌, true, some, List, [], ◌∷◌, ◌++◌}
use aura_old.Urpc.Kind.{Kind, string, s16, u8, packer}
use aura_old.Urpc.Format.{cached, overrun, argcache}
use aura_old.Urpc.Format.Print.{token, print_onto, print, argcache-print}
use aura_old.Urpc.Format.Bounds.{argcache-ne-overrun, argcache-open_overrun}
use aura_old.Tests.{granting}

abbrev kinds : List Kind
kinds = string ∷ s16 ∷ []

argcache-print_example :
    argcache granting (some (print kinds)) true ≡ cached (packer string ∷ packer s16 ∷ [])
argcache-print_example = argcache-print granting true kinds refl refl

argcache-ne-overrun_example :
    argcache granting (some ((b';' ∷ b'9' ∷ []) ++ (b';' ∷ []))) true ≢ overrun
argcache-ne-overrun_example = argcache-ne-overrun granting true (b';' ∷ b'9' ∷ []) refl

argcache-open_overrun_example :
    argcache granting (some (print_onto (token u8) kinds)) true ≡ overrun
argcache-open_overrun_example = argcache-open_overrun granting true kinds u8 refl refl
