-- ===== src/Ddc/Messages.antt =====
-- src/ddcci.c, `ddcci_strerror`: the texts of the results. `strerror` is a parameter.
use Prim.Native.String.{String}
use text.Mathlib.Text.{◌==◌ as str_eq}
use spicy_kvm.Prelude.{
  ℕ, zero, suc, ◌≡◌, refl, ap, Option, none, some, ◌==◌, if◌then◌else◌, ℤ, pos, negsuc,
}
use spicy_kvm.Ddc.Bus.{
  Error, invalid_argument, device_gone, checksum, bad_reply, no_reply, unsupported_vcp, short_read,
  bad_i2c_src_addr, Rc, success, err, errno,
}

-- The numbers of `enum ddcci_error`; an errno is negated.
abbrev number_of : Error → ℕ
number_of invalid_argument = 1
number_of device_gone = 2
number_of checksum = 3
number_of bad_reply = 4
number_of no_reply = 5
number_of unsupported_vcp = 6
number_of short_read = 7
number_of bad_i2c_src_addr = 8

abbrev pub code_of : Rc → ℤ
code_of success = pos 0
code_of (err e) = pos (number_of e)
code_of (errno zero) = pos 0
code_of (errno (suc n)) = negsuc n

-- The cases of the `switch`.
abbrev message_of : ℕ → String
message_of n =
    if n == 0
    then "ddc: success"
    else if n == 1
    then "ddc: invalid argument"
    else if n == 2
    then "ddc: device gone"
    else if n == 3
    then "ddc: invalid checksum"
    else if n == 4
    then "ddc: bad reply"
    else if n == 5
    then "ddc: no reply"
    else if n == 6
    then "ddc: unsupported vcp"
    else if n == 7
    then "ddc: short read"
    else if n == 8
    then "ddc: bad i2c read source address"
    else "unknown error"

unfoldable pub ddcci_strerror : (ℕ → String) → ℤ → String
ddcci_strerror strerror (negsuc n) = strerror (suc n)
ddcci_strerror strerror (pos n) = message_of n

-- What a reader of a message learns.
error_of : String → Option Error
error_of text =
    if str_eq text "ddc: invalid argument"
    then some invalid_argument
    else if str_eq text "ddc: device gone"
    then some device_gone
    else if str_eq text "ddc: invalid checksum"
    then some checksum
    else if str_eq text "ddc: bad reply"
    then some bad_reply
    else if str_eq text "ddc: no reply"
    then some no_reply
    else if str_eq text "ddc: unsupported vcp"
    then some unsupported_vcp
    else if str_eq text "ddc: short read"
    then some short_read
    else if str_eq text "ddc: bad i2c read source address"
    then some bad_i2c_src_addr
    else none

error_of-ddcci_strerror :
    (strerror : ℕ → String) (e : Error)
    → error_of (ddcci_strerror strerror (code_of (err e))) ≡ some e
unfolding error_of ddcci_strerror
error_of-ddcci_strerror strerror invalid_argument = refl
error_of-ddcci_strerror strerror device_gone = refl
error_of-ddcci_strerror strerror checksum = refl
error_of-ddcci_strerror strerror bad_reply = refl
error_of-ddcci_strerror strerror no_reply = refl
error_of-ddcci_strerror strerror unsupported_vcp = refl
error_of-ddcci_strerror strerror short_read = refl
error_of-ddcci_strerror strerror bad_i2c_src_addr = refl

-- Two errors of the enumeration that have the same message are the same.
ddcci_strerror-injective :
    (strerror : ℕ → String) (d e : Error)
    → ddcci_strerror strerror (code_of (err d)) ≡ ddcci_strerror strerror (code_of (err e))
    → d ≡ e
ddcci_strerror-injective strerror d e h =
    cc (error_of-ddcci_strerror strerror d, error_of-ddcci_strerror strerror e, ap error_of h)
