-- ===== src/Ddc/Integrity.antt =====
-- The packets of src/ddcci.c as the display sees them.
use Prim.Native.Nat.{bit_xor}
use spicy_kvm.Prelude.{
  ℕ, ◌+◌, ◌*◌, ◌≤◌, ◌<◌, ◌≡◌, refl, sym, ◌∙◌, ap, ◌≢◌, false, ◌&&◌, Option, none, some, List, [],
  ◌∷◌, ◌++◌, length, length-append, ◌==◌, if◌then◌else◌, arith,
}
use spicy_kvm.Prelude.Bits.{bit_xor_self, bit_xor_cancel_left, bit_xor_cancel_right}
use spicy_kvm.Ddc.Packet.{
  i2c_addr_ddc_ci, buf_size, is_too_long, checksum, body, packet, vcp_command,
}

checksum-append : (ck : ℕ) (xs ys : List ℕ) → checksum ck (xs ++ ys) ≡ checksum (checksum ck xs) ys
unfolding checksum
checksum-append ck [] ys = refl
checksum-append ck (x ∷ xs) ys = checksum-append (bit_xor ck x) xs ys

-- The exclusive or of the shifted address of the display and of all bytes of a packet is 0, for
-- every command.
checksum-packet : (cmd : List ℕ) → checksum (i2c_addr_ddc_ci * 2) (packet cmd) ≡ 0
unfolding packet
checksum-packet cmd =
    checksum-append 0x6E (body cmd) _ ∙ (unfold checksum in bit_xor_self (checksum 0x6E (body cmd)))

checksum-injective : (bs : List ℕ) (x y : ℕ) → checksum x bs ≡ checksum y bs → x ≡ y
unfolding checksum
checksum-injective [] x y e = e
checksum-injective (b ∷ bs) x y e =
    bit_xor_cancel_right b x y (checksum-injective bs (bit_xor x b) (bit_xor y b) e)

checksum_replaced :
    (ck b c : ℕ) (xs ys : List ℕ) → checksum ck (xs ++ b ∷ ys) ≡ checksum ck (xs ++ c ∷ ys) → b ≡ c
unfolding checksum
checksum_replaced ck b c [] ys e =
    bit_xor_cancel_left ck b c (checksum-injective ys (bit_xor ck b) (bit_xor ck c) e)
checksum_replaced ck b c (x ∷ xs) ys e = checksum_replaced (bit_xor ck x) b c xs ys e

-- The checksum shows any one byte of a packet that arrives as another byte, the checksum itself
-- included.
pub packet_detects :
    (cmd xs ys : List ℕ) (b c : ℕ)
    → packet cmd ≡ xs ++ b ∷ ys
    → b ≢ c
    → checksum (i2c_addr_ddc_ci * 2) (xs ++ c ∷ ys) ≢ 0
packet_detects cmd xs ys b c e ne z =
    ne (checksum_replaced 0x6E b c xs ys (ap (checksum 0x6E) (sym e) ∙ checksum-packet cmd ∙ sym z))

-- A packet has three bytes more than its command. So it fits the buffer of `ddcci_tx` exactly if
-- the command has at most 253 bytes.
length-packet :
    (cmd : List ℕ)
    → (length (packet cmd) ≡ length cmd + 3)
      × ((length cmd ≤ 253 → length (packet cmd) ≤ buf_size)
          × (length (packet cmd) ≤ buf_size → length cmd ≤ 253))
unfolding packet body
length-packet cmd =
    let n = length-append cmd (checksum 0x6E (body cmd) ∷ []) in
    (omega (arith, n), ((λ h. omega (arith, n)), λ h. omega (arith, n)))

-- The guard of `ddcci_tx` lets commands of 254 and 255 bytes pass, whose packets are longer than
-- its buffer.
pub packet_overflows :
    (cmd : List ℕ)
    → 254 ≤ length cmd
    → length cmd ≤ 255
    → (is_too_long cmd ≡ false) × (buf_size < length (packet cmd))
packet_overflows cmd lo hi = (ground arith, omega (arith, length-packet cmd))

-- A display's reading of a packet, by the standard that src/ddcci.c refers to: the host's address,
-- the length with its high bit, the code of a VCP write, the VCP, the value, and the checksum.
abbrev pub read_vcp : List ℕ → Option (ℕ × ℕ)
read_vcp (src ∷ len ∷ op ∷ vcp ∷ high ∷ low ∷ ck ∷ []) =
    if src == 0x51
      && len == 0x84
      && op == 0x03
      && checksum 0x6E (src ∷ len ∷ op ∷ vcp ∷ high ∷ low ∷ ck ∷ []) == 0
    then some (vcp, high * 256 + low)
    else none
read_vcp _ = none

-- A display reads back the VCP and the value of the packet that `ddcci_vcp_set` sends, for a value
-- of 16 bits.
pub read_vcp-packet :
    (vcp val : ℕ) → val < 0x10000 → read_vcp (packet (vcp_command vcp val)) ≡ some (vcp, val)
unfolding vcp_command packet body
read_vcp-packet vcp val h = ground (arith, checksum-packet (vcp_command vcp val))
