-- ===== src/Prelude/Text.antt =====
-- Python's tests of texts.
use Prim.Native.Char.{code}
use Prim.Native.String.{String, ◌++◌}
use mathlib.Core.Path.{◌≡◌, refl}
use mathlib.Core.Bool.{Bool, true, false, ◌&&◌}
use native.Mathlib.Omega.{arith}
use text.Mathlib.TextLemmas.{cons-append}
use ganglion_oob.Prelude.Tests.{◌==◌}

-- `s.startswith(prefix)`
unfoldable pub starts_with : String → String → Bool
starts_with String.[] s = true
starts_with (String.◌∷◌ c p) String.[] = false
starts_with (String.◌∷◌ c p) (String.◌∷◌ d s) =
    let rest = starts_with p s in code c == code d && rest

pub starts_with-append : (p q s : String) → starts_with p q ≡ true → starts_with p (q ++ s) ≡ true
unfolding starts_with
starts_with-append String.[] q s h = refl
starts_with-append (String.◌∷◌ c p) String.[] s h = absurd (cc h)
starts_with-append (String.◌∷◌ c p) (String.◌∷◌ d q) s h =
    rw (cons-append d q s) (ground (arith, starts_with-append p q s))
