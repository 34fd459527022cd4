-- ===== src/Examples/Protocols.antt =====
-- The theorems on the encodings at small texts and numbers.
use vorcaro_ledger.Prelude.{◌≡◌}
use vorcaro_ledger.Protocol.Decimal.{decimal, read_decimal, read_decimal-decimal}

read_decimal-decimal_example : read_decimal (decimal 1024) ≡ 1024
read_decimal-decimal_example = read_decimal-decimal 1024
