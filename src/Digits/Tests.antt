-- ===== src/Digits/Tests.antt =====
-- Numbers written at the address 100 of a memory that holds 1 everywhere.
use sandnix.Prelude.{◌+◌, arith}
use sandnix.Bytes.{Bytes}
use sandnix.Digits.{itoa}
use sandnix.Digits.Print.{IsNumeral, itoa-IsNumeral}

abbrev ones : Bytes
ones p = 1

itoa-IsNumeral_example : IsNumeral 10 (λ t. t + 48) 100 1203 ones (itoa 100 1203 ones)
itoa-IsNumeral_example = itoa-IsNumeral 100 1203 ones (omega arith)
