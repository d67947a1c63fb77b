-- ===== src/Prelude/Word.antt =====
-- Machine words: values are native numbers, and each operation writes its wrap-around out.
use Prim.Native.Nat.{ℕ, ◌+◌, ◌%◌}

-- `x += 1` on a uint8_t, a uint16_t and a uint32_t.
abbrev pub inc8 : ℕ → ℕ
inc8 n = (n + 1) % 256

abbrev pub inc16 : ℕ → ℕ
inc16 n = (n + 1) % 65536

abbrev pub inc32 : ℕ → ℕ
inc32 n = (n + 1) % 4294967296
