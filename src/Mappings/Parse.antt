-- ===== src/Mappings/Parse.antt =====
-- mapping_parse and mapping_load of src/input/mapping.c.
use moonlight_allwinner_h.Prelude.{
  ℕ, false, List, [], ◌∷◌, Option, none, some, ◌==◌, if◌then◌else◌, take, ◌||◌,
}
use moonlight_allwinner_h.Prelude.Int.{ℤ, pos, negsuc, neg_ℤ, to_short}
use moonlight_allwinner_h.Gamestream.Text.{Text, codes, text_eq, is_digit, digits_value}
use moonlight_allwinner_h.Config.File.{skip_space, word}
use moonlight_allwinner_h.Evdev.Device.{Mapping}

-- `struct mapping`: its texts, and its flags and indices
pub record GamepadMapping : Type 0 where
  pub guid : Text
  pub platform : Text
  pub name : Text
  pub indices : Mapping

-- The parts between the commas.
unfoldable pub split : Text → List Text
split [] = [] ∷ []
split (c ∷ t) =
    let rest = split t in
    if c == b',' then [] ∷ rest else elim rest [ [] ↦ (c ∷ []) ∷ [] | s ∷ more ↦ (c ∷ s) ∷ more ]

abbrev pub drop_empty : List Text → List Text
drop_empty [] = []
drop_empty ([] ∷ ss) = drop_empty ss
drop_empty ((c ∷ s) ∷ ss) = (c ∷ s) ∷ drop_empty ss

-- What `strtok_r` finds, call by call
unfoldable pub tokens : Text → List Text
tokens t = drop_empty (split t)

-- `%[^:]`
unfoldable pub until_colon : Text → Text × Text
until_colon [] = ([], [])
until_colon (c ∷ t) =
    let rest = until_colon t in if c == b':' then ([], c ∷ t) else (c ∷ rest.0, rest.1)

abbrev pub found_value : Text → Text × Text → Option (Text × Text)
found_value key ([], rest) = none
found_value key (v ∷ vs, rest) = some (key, v ∷ vs)

abbrev pub found_key : Text × Text → Option (Text × Text)
found_key ([], rest) = none
found_key (c ∷ key, []) = none
found_key (c ∷ key, colon ∷ rest) = found_value (c ∷ key) (word (skip_space rest))

-- `sscanf(option, "%m[^:]:%ms", &key, &orig_value)` where it finds both
unfoldable pub scan_option : Text → Option (Text × Text)
scan_option t = found_key (until_colon t)

unfoldable pub span_digits : Text → Text × Text
span_digits [] = ([], [])
span_digits (c ∷ t) =
    let rest = span_digits t in if is_digit c then (c ∷ rest.0, rest.1) else ([], c ∷ t)

abbrev pub found_number : Text × Text → Option (ℕ × Text)
found_number ([], rest) = none
found_number (d ∷ ds, rest) = some (digits_value (d ∷ ds) 0, rest)

abbrev pub negative : Option (ℕ × Text) → Option (ℤ × Text)
negative none = none
negative (some (n, rest)) = some (neg_ℤ (pos n), rest)

abbrev pub positive : Option (ℕ × Text) → Option (ℤ × Text)
positive none = none
positive (some (n, rest)) = some (pos n, rest)

abbrev pub signed_number : Text → Option (ℤ × Text)
signed_number [] = none
signed_number (c ∷ t) =
    if c == b'-'
    then negative (found_number (span_digits t))
    else if c == b'+'
    then positive (found_number (span_digits t))
    else positive (found_number (span_digits (c ∷ t)))

-- `%d`, without its overflow: the number, and the rest
unfoldable pub scan_int : Text → Option (ℤ × Text)
scan_int t = signed_number (skip_space t)

-- `sscanf(value, "b%d", …)`
unfoldable pub scan_button : Text → Option ℤ
scan_button [] = none
scan_button (c ∷ t) =
    if c == b'b' then elim (scan_int t) [ none ↦ none | some n ↦ some n.0 ] else none

abbrev pub first_or_nul : Text → ℕ
first_or_nul [] = 0
first_or_nul (c ∷ t) = c

-- `sscanf(value, "a%d%c", …)`, whose flag stays 0 where nothing follows
unfoldable pub scan_axis : Text → Option (ℤ × ℕ)
scan_axis [] = none
scan_axis (c ∷ t) =
    if c == b'a'
    then elim (scan_int t) [ none ↦ none | some n ↦ some (n.0, first_or_nul n.1) ]
    else none

abbrev pub scan_direction : ℤ → Text → Option (ℤ × ℤ)
scan_direction n [] = none
scan_direction n (c ∷ t) =
    if c == b'.' then elim (scan_int t) [ none ↦ none | some d ↦ some (n, d.0) ] else none

-- `sscanf(value, "h%d.%d", …)`
unfoldable pub scan_hat : Text → Option (ℤ × ℤ)
scan_hat [] = none
scan_hat (c ∷ t) =
    if c == b'h' then elim (scan_int t) [ none ↦ none | some n ↦ scan_direction n.0 n.1 ] else none

unfoldable pub set_button : Text → ℤ → Mapping → Mapping
set_button key v m =
    if text_eq (codes "a") key
    then record m { btn_a = to_short v }
    else if text_eq (codes "y") key
    then record m { btn_y = to_short v }
    else if text_eq (codes "x") key
    then record m { btn_x = to_short v }
    else if text_eq (codes "b") key
    then record m { btn_b = to_short v }
    else if text_eq (codes "back") key
    then record m { btn_back = to_short v }
    else if text_eq (codes "start") key
    then record m { btn_start = to_short v }
    else if text_eq (codes "guide") key
    then record m { btn_guide = to_short v }
    else if text_eq (codes "dpup") key
    then record m { btn_dpup = to_short v }
    else if text_eq (codes "dpdown") key
    then record m { btn_dpdown = to_short v }
    else if text_eq (codes "dpleft") key
    then record m { btn_dpleft = to_short v }
    else if text_eq (codes "dpright") key
    then record m { btn_dpright = to_short v }
    else if text_eq (codes "leftstick") key
    then record m { btn_leftstick = to_short v }
    else if text_eq (codes "rightstick") key
    then record m { btn_rightstick = to_short v }
    else if text_eq (codes "leftshoulder") key
    then record m { btn_leftshoulder = to_short v }
    else if text_eq (codes "rightshoulder") key
    then record m { btn_rightshoulder = to_short v }
    else if text_eq (codes "lefttrigger") key
    then record m { btn_lefttrigger = to_short v }
    else if text_eq (codes "righttrigger") key
    then record m { btn_righttrigger = to_short v }
    else if text_eq (codes "misc1") key
    then record m { btn_misc1 = to_short v }
    else if text_eq (codes "paddle1") key
    then record m { btn_paddle1 = to_short v }
    else if text_eq (codes "paddle2") key
    then record m { btn_paddle2 = to_short v }
    else if text_eq (codes "paddle3") key
    then record m { btn_paddle3 = to_short v }
    else if text_eq (codes "paddle4") key
    then record m { btn_paddle4 = to_short v }
    else if text_eq (codes "touchpad") key
    then record m { btn_touchpad = to_short v }
    else m

unfoldable pub set_axis : Text → ℤ → ℕ → ℕ → Mapping → Mapping
set_axis key v flag half m =
    if text_eq (codes "leftx") key
    then record m { abs_leftx = to_short v; reverse_leftx = flag == b'~' }
    else if text_eq (codes "lefty") key
    then record m { abs_lefty = to_short v; reverse_lefty = flag == b'~' }
    else if text_eq (codes "rightx") key
    then record m { abs_rightx = to_short v; reverse_rightx = flag == b'~' }
    else if text_eq (codes "righty") key
    then record m { abs_righty = to_short v; reverse_righty = flag == b'~' }
    else if text_eq (codes "lefttrigger") key
    then record m { abs_lefttrigger = to_short v; halfaxis_lefttrigger = half }
    else if text_eq (codes "righttrigger") key
    then record m { abs_righttrigger = to_short v; halfaxis_righttrigger = half }
    else if text_eq (codes "dpright") key
    then record m { abs_dpright = to_short v; halfaxis_dpright = half }
    else if text_eq (codes "dpleft") key
    then record m { abs_dpleft = to_short v; halfaxis_dpleft = half }
    else if text_eq (codes "dpup") key
    then record m { abs_dpup = to_short v; halfaxis_dpup = half }
    else if text_eq (codes "dpdown") key
    then record m { abs_dpdown = to_short v; halfaxis_dpdown = half }
    else m

unfoldable pub set_hat : Text → ℤ → ℤ → Mapping → Mapping
set_hat key v d m =
    if text_eq (codes "dpright") key
    then record m { hat_dpright = to_short v; hat_dir_dpright = to_short d }
    else if text_eq (codes "dpleft") key
    then record m { hat_dpleft = to_short v; hat_dir_dpleft = to_short d }
    else if text_eq (codes "dpup") key
    then record m { hat_dpup = to_short v; hat_dir_dpup = to_short d }
    else if text_eq (codes "dpdown") key
    then record m { hat_dpdown = to_short v; hat_dir_dpdown = to_short d }
    else m

-- The sign before a value, or 0, and the value after it
abbrev pub strip_sign : Text → ℕ × Text
strip_sign [] = (0, [])
strip_sign (c ∷ t) = if (c == b'-') || (c == b'+') then (c, t) else (0, c ∷ t)

-- The three kinds of values, tried one after the other
unfoldable pub set_index : Text → ℕ → Text → Mapping → Mapping
set_index key half value m = elim (scan_button value) [
  | some v ↦ set_button key v m
  | none ↦ elim (scan_axis value) [
    | some v ↦ set_axis key v.0 v.1 half m
    | none ↦ elim (scan_hat value) [ some v ↦ set_hat key v.0 v.1 m | none ↦ m ]
  ]
]

unfoldable pub set_option : Text → ℕ × Text → GamepadMapping → GamepadMapping
set_option key (half, value) m =
    if text_eq (codes "platform") key
    then record m { platform = take 32 value }
    else record m { indices = set_index key half value m.indices }

unfoldable pub parse_option : Text → GamepadMapping → GamepadMapping
parse_option option m = elim (scan_option option) [
  | none ↦ m
  | some kv ↦ set_option kv.0 (strip_sign kv.1) m
]

-- The loop over the options.
unfoldable pub parse_options : List Text → GamepadMapping → GamepadMapping
parse_options [] m = m
parse_options (o ∷ os) m = parse_options os (parse_option o m)

-- The indices after `calloc` and `memset`: -1 throughout, the flags 0
unfoldable pub no_indices : Mapping
no_indices = record {
  reverse_leftx = false;
  reverse_lefty = false;
  reverse_rightx = false;
  reverse_righty = false;
  halfaxis_lefttrigger = 0;
  halfaxis_righttrigger = 0;
  halfaxis_dpright = 0;
  halfaxis_dpleft = 0;
  halfaxis_dpup = 0;
  halfaxis_dpdown = 0;
  abs_leftx = negsuc 0;
  abs_lefty = negsuc 0;
  abs_rightx = negsuc 0;
  abs_righty = negsuc 0;
  hat_dpright = negsuc 0;
  hat_dpleft = negsuc 0;
  hat_dpup = negsuc 0;
  hat_dpdown = negsuc 0;
  hat_dir_dpright = negsuc 0;
  hat_dir_dpleft = negsuc 0;
  hat_dir_dpup = negsuc 0;
  hat_dir_dpdown = negsuc 0;
  btn_dpup = negsuc 0;
  btn_dpdown = negsuc 0;
  btn_dpleft = negsuc 0;
  btn_dpright = negsuc 0;
  abs_dpright = negsuc 0;
  abs_dpleft = negsuc 0;
  abs_dpup = negsuc 0;
  abs_dpdown = negsuc 0;
  btn_a = negsuc 0;
  btn_x = negsuc 0;
  btn_y = negsuc 0;
  btn_b = negsuc 0;
  btn_back = negsuc 0;
  btn_start = negsuc 0;
  btn_guide = negsuc 0;
  btn_leftstick = negsuc 0;
  btn_rightstick = negsuc 0;
  btn_leftshoulder = negsuc 0;
  btn_rightshoulder = negsuc 0;
  btn_misc1 = negsuc 0;
  btn_paddle1 = negsuc 0;
  btn_paddle2 = negsuc 0;
  btn_paddle3 = negsuc 0;
  btn_paddle4 = negsuc 0;
  btn_touchpad = negsuc 0;
  abs_lefttrigger = negsuc 0;
  abs_righttrigger = negsuc 0;
  btn_lefttrigger = negsuc 0;
  btn_righttrigger = negsuc 0;
}

abbrev pub parse_tokens : List Text → Option GamepadMapping
parse_tokens [] = none
parse_tokens (guid ∷ []) = none
parse_tokens (guid ∷ name ∷ options) = some (
    parse_options options
      (record { guid = take 32 guid; platform = []; name = take 256 name; indices = no_indices }))

unfoldable pub mapping_parse : Text → Option GamepadMapping
mapping_parse line = parse_tokens (tokens line)

-- The lines that `getline` reads, each with its end.
unfoldable pub whole_lines : Text → List Text
whole_lines [] = []
whole_lines (c ∷ t) =
    let rest = whole_lines t in
    if c == 10
    then (c ∷ []) ∷ rest
    else elim rest [ [] ↦ (c ∷ []) ∷ [] | l ∷ more ↦ (c ∷ l) ∷ more ]

unfoldable pub load_lines : List Text → List GamepadMapping → List GamepadMapping
load_lines [] loaded = loaded
load_lines (l ∷ ls) loaded =
    load_lines ls (elim (mapping_parse l) [ none ↦ loaded | some m ↦ m ∷ loaded ])

-- mapping_load of a file's contents: the last mapping of the file comes first.
unfoldable pub mapping_load : Text → List GamepadMapping
mapping_load text = load_lines (whole_lines text) []
