-- ===== src/Kernel/Money/Tests.antt =====
-- The decimal texts of a small amount.
use money_management_pstu_ha.Prelude.{◌≡◌, [], ◌∷◌, ◌++◌, arith}
use money_management_pstu_ha.Prelude.Int.{pos}
use money_management_pstu_ha.Prelude.Result.{ok}
use money_management_pstu_ha.Kernel.Money.{from_minor, bdt, from_decimal_string, to_decimal_string}
use money_management_pstu_ha.Kernel.Money.RoundTrip.{
  from_decimal_string-to_decimal_string, from_decimal_string-line_feed,
}

from_decimal_string-to_decimal_string_example :
    from_decimal_string (to_decimal_string (from_minor (pos 123_405) bdt)) bdt
    ≡ ok (from_minor (pos 123_405) bdt)
from_decimal_string-to_decimal_string_example =
    from_decimal_string-to_decimal_string 123_405 (omega arith)

from_decimal_string-line_feed_example :
    from_decimal_string (to_decimal_string (from_minor (pos 123_405) bdt) ++ (10 ∷ [])) bdt
    ≡ ok (from_minor (pos 123_405) bdt)
from_decimal_string-line_feed_example = from_decimal_string-line_feed 123_405 (omega arith)
