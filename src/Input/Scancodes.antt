-- ===== src/Input/Scancodes.antt =====
-- The scancode table of src/input.c: which keys share a scancode, and the form of a scancode.
use spicy_kvm.Prelude.{
  ℕ, ◌/◌, ◌%◌, ◌<◌, ◌≡◌, refl, ◌∙◌, ◌≢◌, ◌⊎◌, inl, inr, Option, none, some, List, [], ◌∷◌, ◌==◌,
  if◌then◌else◌, arith,
}
use spicy_kvm.Input.Keys.{Key, key_esc, key_hanja, key_hangeul, key_print, key_sysrq, linux_to_ps2}

-- The keys with a scancode, one for each scancode.
keys : List Key
keys =
    Key.key_esc ∷ Key.key_1 ∷ Key.key_2 ∷ Key.key_3 ∷ Key.key_4 ∷ Key.key_5 ∷ Key.key_6 ∷ Key.key_7
    ∷ Key.key_8 ∷ Key.key_9 ∷ Key.key_0 ∷ Key.key_minus ∷ Key.key_equal ∷ Key.key_backspace
    ∷ Key.key_tab ∷ Key.key_q ∷ Key.key_w ∷ Key.key_e ∷ Key.key_r ∷ Key.key_t ∷ Key.key_y
    ∷ Key.key_u ∷ Key.key_i ∷ Key.key_o ∷ Key.key_p ∷ Key.key_leftbrace ∷ Key.key_rightbrace
    ∷ Key.key_enter ∷ Key.key_leftctrl ∷ Key.key_a ∷ Key.key_s ∷ Key.key_d ∷ Key.key_f ∷ Key.key_g
    ∷ Key.key_h ∷ Key.key_j ∷ Key.key_k ∷ Key.key_l ∷ Key.key_semicolon ∷ Key.key_apostrophe
    ∷ Key.key_grave ∷ Key.key_leftshift ∷ Key.key_backslash ∷ Key.key_z ∷ Key.key_x ∷ Key.key_c
    ∷ Key.key_v ∷ Key.key_b ∷ Key.key_n ∷ Key.key_m ∷ Key.key_comma ∷ Key.key_dot ∷ Key.key_slash
    ∷ Key.key_rightshift ∷ Key.key_kpasterisk ∷ Key.key_leftalt ∷ Key.key_space ∷ Key.key_capslock
    ∷ Key.key_f1 ∷ Key.key_f2 ∷ Key.key_f3 ∷ Key.key_f4 ∷ Key.key_f5 ∷ Key.key_f6 ∷ Key.key_f7
    ∷ Key.key_f8 ∷ Key.key_f9 ∷ Key.key_f10 ∷ Key.key_numlock ∷ Key.key_scrolllock ∷ Key.key_kp7
    ∷ Key.key_kp8 ∷ Key.key_kp9 ∷ Key.key_kpminus ∷ Key.key_kp4 ∷ Key.key_kp5 ∷ Key.key_kp6
    ∷ Key.key_kpplus ∷ Key.key_kp1 ∷ Key.key_kp2 ∷ Key.key_kp3 ∷ Key.key_kp0 ∷ Key.key_kpdot
    ∷ Key.key_102nd ∷ Key.key_f11 ∷ Key.key_f12 ∷ Key.key_ro ∷ Key.key_henkan
    ∷ Key.key_katakanahiragana ∷ Key.key_muhenkan ∷ Key.key_kpenter ∷ Key.key_rightctrl
    ∷ Key.key_kpslash ∷ Key.key_sysrq ∷ Key.key_rightalt ∷ Key.key_home ∷ Key.key_up
    ∷ Key.key_pageup ∷ Key.key_left ∷ Key.key_right ∷ Key.key_end ∷ Key.key_down ∷ Key.key_pagedown
    ∷ Key.key_insert ∷ Key.key_delete ∷ Key.key_kpequal ∷ Key.key_pause ∷ Key.key_kpcomma
    ∷ Key.key_hangeul ∷ Key.key_hanja ∷ Key.key_yen ∷ Key.key_leftmeta ∷ Key.key_rightmeta
    ∷ Key.key_compose ∷ Key.key_f13 ∷ Key.key_f14 ∷ Key.key_f15 ∷ Key.key_mute ∷ Key.key_volumeup
    ∷ Key.key_volumedown ∷ Key.key_nextsong ∷ Key.key_playpause ∷ Key.key_previoussong
    ∷ Key.key_stopcd ∷ []

-- The first of some keys that has a scancode.
key_of : List Key → ℕ → Option Key
key_of [] code = none
key_of (k ∷ ks) code = if linux_to_ps2 k == code then some k else key_of ks code

-- `KEY_PRINT` and `KEY_SYSRQ` are one key to the guest; every other key is its own.
unfoldable pub guest_key : Key → Key
guest_key key_print = key_sysrq
guest_key k = k

key_of-linux_to_ps2 :
    (k : Key) → linux_to_ps2 k ≢ 0 → key_of keys (linux_to_ps2 k) ≡ some (guest_key k)
unfolding key_of keys linux_to_ps2 guest_key
key_of-linux_to_ps2 key_esc h = refl
key_of-linux_to_ps2 key_print h = refl
key_of-linux_to_ps2 _ h = ground arith

-- Two keys that have a scancode, and the same one, are one key of the guest.
pub linux_to_ps2-injective :
    (j k : Key) → linux_to_ps2 j ≢ 0 → linux_to_ps2 j ≡ linux_to_ps2 k → guest_key j ≡ guest_key k
linux_to_ps2-injective j k h e =
    cc (key_of-linux_to_ps2 j h, key_of-linux_to_ps2 k (λ z. h (e ∙ z)))

-- Each key's code is a scancode of set 1: one byte below 0x80, or the prefix 0xE0 and such a byte; the language keys
-- have 0xF1 and 0xF2. The 0 of a key with no scancode is below 0x80 too.
linux_to_ps2-form :
    (k : Key)
    → let code = linux_to_ps2 k in
      (code < 0x80)
      ⊎ ((code / 256 ≡ 0xE0) × (code % 256 < 0x80))
      ⊎ ((code ≡ 0xF1) × (k ≡ key_hanja))
      ⊎ ((code ≡ 0xF2) × (k ≡ key_hangeul))
unfolding linux_to_ps2
linux_to_ps2-form key_esc = omega arith
linux_to_ps2-form key_hanja = inr (inr (inl (refl, refl)))
linux_to_ps2-form key_hangeul = inr (inr (inr (refl, refl)))
linux_to_ps2-form _ = omega arith
