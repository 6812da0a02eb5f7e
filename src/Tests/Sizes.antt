-- ===== src/Tests/Sizes.antt =====
-- Buffer sizes as people write them, at concrete values.
use dust_devil.Base.{◌≡◌, refl, true, [], ◌∷◌, arith}
use dust_devil.Io.{text}
use dust_devil.Serialize.Containers.{Result}
use dust_devil.Protocol.BufferSize.{PrettyBufferSizeParseError, parse_pretty_buffer_size}
use dust_devil.Protocol.BufferSize.Digits.{value}
use dust_devil.Protocol.BufferSize.Laws.{
  Radix, Suffix, base, pretty, outcome, parse_pretty_buffer_size-pretty,
}

parse_pretty_buffer_size-pretty_example :
    parse_pretty_buffer_size (pretty Radix.hexadecimal (1 ∷ 11 ∷ []) Suffix.kilo true)
    ≡ outcome (value (base Radix.hexadecimal) 0 (1 ∷ 11 ∷ [])) Suffix.kilo
parse_pretty_buffer_size-pretty_example =
    parse_pretty_buffer_size-pretty Radix.hexadecimal 1 (11 ∷ []) Suffix.kilo true
      (omega arith, (omega arith, tt))

spaces_and_capitals : parse_pretty_buffer_size (text " 0X1bKb ") ≡ Result.ok 27648
unfolding parse_pretty_buffer_size
spaces_and_capitals = refl

plain_bytes : parse_pretty_buffer_size (text "8192b") ≡ Result.ok 8192
unfolding parse_pretty_buffer_size
plain_bytes = refl

too_many : parse_pretty_buffer_size (text "4G") ≡ Result.err PrettyBufferSizeParseError.too_large
unfolding parse_pretty_buffer_size
too_many = refl
