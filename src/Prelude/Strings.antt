-- ===== src/Prelude/Strings.antt =====
-- How texts are joined.
use Prim.Native.Char.{Char}
use Prim.Native.String
use Prim.Native.String.append
use mathlib.Core.Path.{◌≡◌}

pub nil-append : (t : String.String) → String.◌++◌ "" t ≡ t
nil-append t = λ i. append.nil t i

pub cons-append :
    (c : Char) (s t : String.String)
    → String.◌++◌ (String.◌∷◌ c s) t ≡ String.◌∷◌ c (String.◌++◌ s t)
cons-append c s t = λ i. append.cons c s t i
