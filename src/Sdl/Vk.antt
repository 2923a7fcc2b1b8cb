-- ===== src/Sdl/Vk.antt =====
-- vk_for_sdl_scancode of src/input/sdl.c: the Windows key code of a scancode.
use moonlight_allwinner_h.Prelude.{ℕ, ◌+◌, ◌-◌, Bool, List, [], ◌∷◌, ◌&&◌, leb, ◌==◌, if◌then◌else◌}
use moonlight_allwinner_h.Sdl.Host.{Scancodes}

module _ (sc : Scancodes) where
  -- The cases of the `switch`, in their order.
  abbrev pub scancode_keys : List (ℕ × ℕ)
  scancode_keys =
      (sc.scancode_backspace, 8)
      ∷ (sc.scancode_tab, 9)
      ∷ (sc.scancode_clear, 12)
      ∷ (sc.scancode_kp_enter, 13)
      ∷ (sc.scancode_return, 13)
      ∷ (sc.scancode_pause, 19)
      ∷ (sc.scancode_capslock, 20)
      ∷ (sc.scancode_escape, 27)
      ∷ (sc.scancode_space, 32)
      ∷ (sc.scancode_pageup, 33)
      ∷ (sc.scancode_pagedown, 34)
      ∷ (sc.scancode_end, 35)
      ∷ (sc.scancode_home, 36)
      ∷ (sc.scancode_left, 37)
      ∷ (sc.scancode_up, 38)
      ∷ (sc.scancode_right, 39)
      ∷ (sc.scancode_down, 40)
      ∷ (sc.scancode_select, 41)
      ∷ (sc.scancode_execute, 43)
      ∷ (sc.scancode_printscreen, 44)
      ∷ (sc.scancode_insert, 45)
      ∷ (sc.scancode_delete, 46)
      ∷ (sc.scancode_help, 47)
      ∷ (sc.scancode_kp_0, 96)
      ∷ (sc.scancode_0, 48)
      ∷ (sc.scancode_kp_multiply, 106)
      ∷ (sc.scancode_kp_plus, 107)
      ∷ (sc.scancode_kp_comma, 108)
      ∷ (sc.scancode_kp_minus, 109)
      ∷ (sc.scancode_kp_period, 110)
      ∷ (sc.scancode_kp_divide, 111)
      ∷ (sc.scancode_numlockclear, 144)
      ∷ (sc.scancode_scrolllock, 145)
      ∷ (sc.scancode_lshift, 160)
      ∷ (sc.scancode_rshift, 161)
      ∷ (sc.scancode_lctrl, 162)
      ∷ (sc.scancode_rctrl, 163)
      ∷ (sc.scancode_lalt, 164)
      ∷ (sc.scancode_ralt, 165)
      ∷ (sc.scancode_lgui, 91)
      ∷ (sc.scancode_rgui, 92)
      ∷ (sc.scancode_application, 93)
      ∷ (sc.scancode_ac_back, 166)
      ∷ (sc.scancode_ac_forward, 167)
      ∷ (sc.scancode_ac_refresh, 168)
      ∷ (sc.scancode_ac_stop, 169)
      ∷ (sc.scancode_ac_search, 170)
      ∷ (sc.scancode_ac_bookmarks, 171)
      ∷ (sc.scancode_ac_home, 172)
      ∷ (sc.scancode_semicolon, 186)
      ∷ (sc.scancode_equals, 187)
      ∷ (sc.scancode_comma, 188)
      ∷ (sc.scancode_minus, 189)
      ∷ (sc.scancode_period, 190)
      ∷ (sc.scancode_slash, 191)
      ∷ (sc.scancode_grave, 192)
      ∷ (sc.scancode_leftbracket, 219)
      ∷ (sc.scancode_backslash, 220)
      ∷ (sc.scancode_rightbracket, 221)
      ∷ (sc.scancode_apostrophe, 222)
      ∷ (sc.scancode_nonusbackslash, 226)
      ∷ []

  unfoldable pub lookup_key : ℕ → List (ℕ × ℕ) → ℕ
  lookup_key scancode [] = 0
  lookup_key scancode ((c, vk) ∷ rest) =
      let later = lookup_key scancode rest in if scancode == c then vk else later

  abbrev between : ℕ → ℕ → ℕ → Bool
  between lo hi x = leb lo x && leb x hi

  unfoldable pub vk_for_sdl_scancode : ℕ → ℕ
  vk_for_sdl_scancode s =
      if between sc.scancode_1 sc.scancode_9 s
      then (s - sc.scancode_1) + 48 + 1
      else if between sc.scancode_a sc.scancode_z s
      then (s - sc.scancode_a) + 65
      else if between sc.scancode_f1 sc.scancode_f12 s
      then (s - sc.scancode_f1) + 112
      else if between sc.scancode_f13 sc.scancode_f24 s
      then (s - sc.scancode_f13) + 124
      else if between sc.scancode_kp_1 sc.scancode_kp_9 s
      then (s - sc.scancode_kp_1) + 96 + 1
      else lookup_key s scancode_keys
