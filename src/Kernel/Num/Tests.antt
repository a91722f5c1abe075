-- ===== src/Kernel/Num/Tests.antt =====
-- The conversions of numbers at 32 bits.
use aexkernel.Prelude.{◌≡◌, arith}
use aexkernel.Kernel.Num.{untoa, ntoa, uaton, aton}
use aexkernel.Kernel.Num.Roundtrip.{uaton-untoa, aton-ntoa}

uaton-untoa_example : uaton 32 (untoa 32 4294967290 10) ≡ 4294967290
uaton-untoa_example = uaton-untoa 32 4294967290 (omega arith)

aton-ntoa_example : aton 32 (ntoa 32 2147483648 10) ≡ 2147483648
aton-ntoa_example = aton-ntoa 32 2147483648 (omega arith) (omega arith)
