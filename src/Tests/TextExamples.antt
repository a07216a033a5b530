-- ===== src/Tests/TextExamples.antt =====
-- The numbers at the lower end of the range of `i64`, as `parse::<i64>` reads them.
use aircd.Base.{◌≡◌, refl, some, none, negsuc, codes}
use aircd.Strings.Numbers.{parse_i64}
use aircd.Tests.Running.{running}

smallest : parse_i64 (codes "-9223372036854775808") ≡ some (negsuc 9223372036854775807)
unfolding running
smallest = refl

too_small : parse_i64 (codes "-9223372036854775809") ≡ none
unfolding running
too_small = refl
