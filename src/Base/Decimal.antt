-- ===== src/Base/Decimal.antt =====
-- Decimal text of a natural number, as `fmt` and `math/big` write it.
use Prim.Native.Nat.{ℕ, zero, suc, ◌+◌, ◌/◌, ◌%◌}
use mathlib.Core.Path.{◌≡◌, refl}
use mathlib.Core.List.{[], ◌∷◌, ◌++◌}
use go_stripenav.Base.Tests.{ltb, if◌then◌else◌}
use go_stripenav.Base.Text.{Bytes, str}

-- The digits of `n`, at most `fuel` of them; `n` itself is fuel enough.
unfoldable pub digits_fuel : ℕ → ℕ → Bytes
digits_fuel zero n = []
digits_fuel (suc fuel) n =
    let front = digits_fuel fuel (n / 10) in
    if ltb n 10 then (b'0' + n) ∷ [] else front ++ (b'0' + n % 10) ∷ []

unfoldable pub utoa : ℕ → Bytes
unfolding digits_fuel
utoa n = digits_fuel (suc n) n

utoa_zero : utoa 0 ≡ str "0"
unfolding utoa
utoa_zero = refl

utoa_some : utoa 10305 ≡ str "10305"
unfolding utoa
utoa_some = refl
