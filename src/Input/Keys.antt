-- ===== src/Input/Keys.antt =====
-- The event codes that src/input.c names, and its two translation tables.
-- The numbers behind the names come from linux/input-event-codes.h: the code is here known by its
-- name alone, and a code that src/input.c does not name is `other`.
use spicy_kvm.Prelude.{ℕ, Option, none, some}

-- The codes of `EV_KEY` events.
pub data Key : Type 0 where
  key_reserved key_esc key_1 key_2 key_3 key_4 key_5 key_6 key_7 key_8 key_9 key_0 : Key
  key_minus key_equal key_backspace key_tab key_q key_w key_e key_r key_t key_y key_u : Key
  key_i key_o key_p key_leftbrace key_rightbrace key_enter key_leftctrl key_a key_s key_d : Key
  key_f key_g key_h key_j key_k key_l key_semicolon key_apostrophe key_grave key_leftshift : Key
  key_backslash key_z key_x key_c key_v key_b key_n key_m key_comma key_dot key_slash : Key
  key_rightshift key_kpasterisk key_leftalt key_space key_capslock key_f1 key_f2 key_f3 : Key
  key_f4 key_f5 key_f6 key_f7 key_f8 key_f9 key_f10 key_numlock key_scrolllock key_kp7 : Key
  key_kp8 key_kp9 key_kpminus key_kp4 key_kp5 key_kp6 key_kpplus key_kp1 key_kp2 key_kp3 : Key
  key_kp0 key_kpdot key_102nd key_f11 key_f12 key_ro key_henkan key_katakanahiragana : Key
  key_muhenkan key_kpenter key_rightctrl key_kpslash key_sysrq key_rightalt key_home : Key
  key_up key_pageup key_left key_right key_end key_down key_pagedown key_insert key_delete : Key
  key_kpequal key_pause key_kpcomma key_hangeul key_hanja key_yen key_leftmeta : Key
  key_rightmeta key_compose key_f13 key_f14 key_f15 key_print key_mute key_volumeup : Key
  key_volumedown key_nextsong key_playpause key_previoussong key_stopcd btn_left : Key
  btn_middle btn_right btn_side btn_extra btn_touch : Key
  other : ℕ → Key

-- `SpiceMouseButton`; the zero of that enumeration is `none` below.
pub data Button : Type 0 where
  left middle right up down side extra : Button

-- The PS/2 scancode of a key; 0 for a key that has none.
unfoldable pub linux_to_ps2 : Key → ℕ
linux_to_ps2 key_reserved = 0x000000
linux_to_ps2 key_esc = 0x000001
linux_to_ps2 key_1 = 0x000002
linux_to_ps2 key_2 = 0x000003
linux_to_ps2 key_3 = 0x000004
linux_to_ps2 key_4 = 0x000005
linux_to_ps2 key_5 = 0x000006
linux_to_ps2 key_6 = 0x000007
linux_to_ps2 key_7 = 0x000008
linux_to_ps2 key_8 = 0x000009
linux_to_ps2 key_9 = 0x00000A
linux_to_ps2 key_0 = 0x00000B
linux_to_ps2 key_minus = 0x00000C
linux_to_ps2 key_equal = 0x00000D
linux_to_ps2 key_backspace = 0x00000E
linux_to_ps2 key_tab = 0x00000F
linux_to_ps2 key_q = 0x000010
linux_to_ps2 key_w = 0x000011
linux_to_ps2 key_e = 0x000012
linux_to_ps2 key_r = 0x000013
linux_to_ps2 key_t = 0x000014
linux_to_ps2 key_y = 0x000015
linux_to_ps2 key_u = 0x000016
linux_to_ps2 key_i = 0x000017
linux_to_ps2 key_o = 0x000018
linux_to_ps2 key_p = 0x000019
linux_to_ps2 key_leftbrace = 0x00001A
linux_to_ps2 key_rightbrace = 0x00001B
linux_to_ps2 key_enter = 0x00001C
linux_to_ps2 key_leftctrl = 0x00001D
linux_to_ps2 key_a = 0x00001E
linux_to_ps2 key_s = 0x00001F
linux_to_ps2 key_d = 0x000020
linux_to_ps2 key_f = 0x000021
linux_to_ps2 key_g = 0x000022
linux_to_ps2 key_h = 0x000023
linux_to_ps2 key_j = 0x000024
linux_to_ps2 key_k = 0x000025
linux_to_ps2 key_l = 0x000026
linux_to_ps2 key_semicolon = 0x000027
linux_to_ps2 key_apostrophe = 0x000028
linux_to_ps2 key_grave = 0x000029
linux_to_ps2 key_leftshift = 0x00002A
linux_to_ps2 key_backslash = 0x00002B
linux_to_ps2 key_z = 0x00002C
linux_to_ps2 key_x = 0x00002D
linux_to_ps2 key_c = 0x00002E
linux_to_ps2 key_v = 0x00002F
linux_to_ps2 key_b = 0x000030
linux_to_ps2 key_n = 0x000031
linux_to_ps2 key_m = 0x000032
linux_to_ps2 key_comma = 0x000033
linux_to_ps2 key_dot = 0x000034
linux_to_ps2 key_slash = 0x000035
linux_to_ps2 key_rightshift = 0x000036
linux_to_ps2 key_kpasterisk = 0x000037
linux_to_ps2 key_leftalt = 0x000038
linux_to_ps2 key_space = 0x000039
linux_to_ps2 key_capslock = 0x00003A
linux_to_ps2 key_f1 = 0x00003B
linux_to_ps2 key_f2 = 0x00003C
linux_to_ps2 key_f3 = 0x00003D
linux_to_ps2 key_f4 = 0x00003E
linux_to_ps2 key_f5 = 0x00003F
linux_to_ps2 key_f6 = 0x000040
linux_to_ps2 key_f7 = 0x000041
linux_to_ps2 key_f8 = 0x000042
linux_to_ps2 key_f9 = 0x000043
linux_to_ps2 key_f10 = 0x000044
linux_to_ps2 key_numlock = 0x000045
linux_to_ps2 key_scrolllock = 0x000046
linux_to_ps2 key_kp7 = 0x000047
linux_to_ps2 key_kp8 = 0x000048
linux_to_ps2 key_kp9 = 0x000049
linux_to_ps2 key_kpminus = 0x00004A
linux_to_ps2 key_kp4 = 0x00004B
linux_to_ps2 key_kp5 = 0x00004C
linux_to_ps2 key_kp6 = 0x00004D
linux_to_ps2 key_kpplus = 0x00004E
linux_to_ps2 key_kp1 = 0x00004F
linux_to_ps2 key_kp2 = 0x000050
linux_to_ps2 key_kp3 = 0x000051
linux_to_ps2 key_kp0 = 0x000052
linux_to_ps2 key_kpdot = 0x000053
linux_to_ps2 key_102nd = 0x000056
linux_to_ps2 key_f11 = 0x000057
linux_to_ps2 key_f12 = 0x000058
linux_to_ps2 key_ro = 0x000073
linux_to_ps2 key_henkan = 0x000079
linux_to_ps2 key_katakanahiragana = 0x000070
linux_to_ps2 key_muhenkan = 0x00007B
linux_to_ps2 key_kpenter = 0x00E01C
linux_to_ps2 key_rightctrl = 0x00E01D
linux_to_ps2 key_kpslash = 0x00E035
linux_to_ps2 key_sysrq = 0x00E037
linux_to_ps2 key_rightalt = 0x00E038
linux_to_ps2 key_home = 0x00E047
linux_to_ps2 key_up = 0x00E048
linux_to_ps2 key_pageup = 0x00E049
linux_to_ps2 key_left = 0x00E04B
linux_to_ps2 key_right = 0x00E04D
linux_to_ps2 key_end = 0x00E04F
linux_to_ps2 key_down = 0x00E050
linux_to_ps2 key_pagedown = 0x00E051
linux_to_ps2 key_insert = 0x00E052
linux_to_ps2 key_delete = 0x00E053
linux_to_ps2 key_kpequal = 0x000059
linux_to_ps2 key_pause = 0x00E046
linux_to_ps2 key_kpcomma = 0x00007E
linux_to_ps2 key_hangeul = 0x0000F2
linux_to_ps2 key_hanja = 0x0000F1
linux_to_ps2 key_yen = 0x00007D
linux_to_ps2 key_leftmeta = 0x00E05B
linux_to_ps2 key_rightmeta = 0x00E05C
linux_to_ps2 key_compose = 0x00E05D
linux_to_ps2 key_f13 = 0x00005D
linux_to_ps2 key_f14 = 0x00005E
linux_to_ps2 key_f15 = 0x00005F
linux_to_ps2 key_print = 0x00E037
linux_to_ps2 key_mute = 0x00E020
linux_to_ps2 key_volumeup = 0x00E030
linux_to_ps2 key_volumedown = 0x00E02E
linux_to_ps2 key_nextsong = 0x00E019
linux_to_ps2 key_playpause = 0x00E022
linux_to_ps2 key_previoussong = 0x00E010
linux_to_ps2 key_stopcd = 0x00E024
linux_to_ps2 _ = 0

-- The SPICE button of a mouse button.
unfoldable pub linux_to_spice : Key → Option Button
linux_to_spice btn_left = some left
linux_to_spice btn_middle = some middle
linux_to_spice btn_right = some right
linux_to_spice btn_side = some side
linux_to_spice btn_extra = some extra
linux_to_spice _ = none
