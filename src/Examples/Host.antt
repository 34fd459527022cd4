-- ===== src/Examples/Host.antt =====
-- A host whose functions are simple enough to run: it shows that what the theorems ask of a host
-- can hold.
use vorcaro_ledger.Prelude.{◌+◌, ◌%◌, true, [], ◌∷◌, ◌++◌, Text, Bytes, codes, length, leb, arith}
use vorcaro_ledger.Protocol.Crypto.{Host, EncodesAscii, is_ascii}
use vorcaro_ledger.Protocol.Pattern.{is_nonempty}
use vorcaro_ledger.Ledger.Append.{Appender}
use vorcaro_ledger.Ledger.Queue.Order.{IsCollation}

-- Sixty-four digits, the last of which is the last digit of the length.
abbrev pub length_digest : Bytes → Text
length_digest bytes =
    codes "000000000000000000000000000000000000000000000000000000000000000"
    ++ (b'0' + length bytes % 10) ∷ []

abbrev pub key_of_64 : Text
key_of_64 = codes "AAAAAAAAAAAAAAAAAAAAAAAAAAAAAAAAAAAAAAAAAAAAAAAAAAAAAAAAAAAAAAAA"

abbrev pub key_of_32 : Text
key_of_32 = codes "BBBBBBBBBBBBBBBBBBBBBBBBBBBBBBBB"

abbrev pub plain_host : Host
plain_host = record {
  utf8 = λ s. s;
  base64_decode = λ s. s;
  base64_encode = λ s. s;
  sha256_hex = length_digest;
  sign_detached = λ bytes key. key;
  verify_detached = λ signature bytes key. true;
  locale_le = λ s t. leb (length s) (length t);
  is_datetime = is_nonempty;
}

abbrev pub morning : Appender
morning = record {
  host = plain_host;
  server_signing_secret_key = key_of_64;
  now = codes "2026-01-01T08:00:00.000Z";
}

abbrev pub evening : Appender
evening = record morning { now = codes "2026-01-01T20:00:00.000Z" }

-- Texts compared by their lengths.
pub plain-IsCollation : IsCollation plain_host
plain-IsCollation = record { total = λ s t h. ground arith; trans = λ s t u h k. ground arith }

pub plain-EncodesAscii : EncodesAscii plain_host
unfolding is_ascii
plain-EncodesAscii = record { exact = λ s t ascii same. same; hex = λ bytes. ground arith }
