-- ===== src/Ddc/Packet.antt =====
-- src/ddcci.c, the bytes: the packet that `ddcci_tx` builds in its buffer, and the command of
-- `ddcci_vcp_set`. Bytes are numbers below 256.
use Prim.Native.Nat.{bit_or, bit_xor}
use spicy_kvm.Prelude.{ℕ, ◌*◌, ◌/◌, ◌%◌, Bool, List, [], ◌∷◌, ◌++◌, length, ltb}

abbrev pub i2c_addr_ddc_ci : ℕ
i2c_addr_ddc_ci = 0x37

abbrev pub i2c_addr_host : ℕ
i2c_addr_host = 0x51

-- `uint8_t buf[256]`
abbrev pub buf_size : ℕ
buf_size = 256

-- `cmd_len > 0xFF`
abbrev pub is_too_long : List ℕ → Bool
is_too_long cmd = ltb 0xFF (length cmd)

-- `buf[ck] ^= buf[i]` for each byte before the checksum, whose first value is `ck`.
unfoldable pub checksum : ℕ → List ℕ → ℕ
checksum ck [] = ck
checksum ck (b ∷ bs) = checksum (bit_xor ck b) bs

-- The header and the command.
unfoldable pub body : List ℕ → List ℕ
body cmd = i2c_addr_host ∷ bit_or 0x80 (length cmd % 256) ∷ cmd

-- The buffer that is sent; the address that the bus sends before it, shifted, starts the checksum.
unfoldable pub packet : List ℕ → List ℕ
packet cmd = body cmd ++ checksum (i2c_addr_ddc_ci * 2) (body cmd) ∷ []

-- `{0x03, vcp, (val >> 8) & 0xFF, val & 0xFF}`
unfoldable pub vcp_command : ℕ → ℕ → List ℕ
vcp_command vcp val = 0x03 ∷ vcp ∷ val / 256 % 256 ∷ val % 256 ∷ []
