-- ===== src/Config/File.antt =====
-- The configuration files of src/config.c: config_file_parse and config_save.
use moonlight_allwinner_h.Prelude.{
  ℕ, zero, suc, ◌+◌, ◌/◌, ◌%◌, Bool, true, false, not, List, [], ◌∷◌, ◌++◌, Option, none, some,
  ◌==◌, ltb, if◌then◌else◌,
}
use moonlight_allwinner_h.Prelude.Int.{ℤ, pos, negsuc, eqb_ℤ}
use moonlight_allwinner_h.Gamestream.Text.{Text, codes, text_eq, is_space}
use moonlight_allwinner_h.Config.Types.{Config, Constants, System, Outcome, ok, exits, ◌>>-◌}
use moonlight_allwinner_h.Config.Argument.{LongOption, long_options, parse_argument}

-- The lines that `getline` reads, without their ends; a last line may have none.
unfoldable pub lines : Text → List Text
lines [] = []
lines (c ∷ t) =
    let rest = lines t in
    if c == 10 then [] ∷ rest else elim rest [ [] ↦ (c ∷ []) ∷ [] | l ∷ more ↦ (c ∷ l) ∷ more ]

unfoldable pub skip_space : Text → Text
skip_space [] = []
skip_space (c ∷ t) = let rest = skip_space t in if is_space c then rest else c ∷ t

-- `%s`: the characters up to the next space, and the rest
unfoldable pub word : Text → Text × Text
word [] = ([], [])
word (c ∷ t) = let rest = word t in if is_space c then ([], c ∷ t) else (c ∷ rest.0, rest.1)

abbrev pub after_equals : Text → Text → Option (Text × Text)
after_equals key [] = none
after_equals key (c ∷ t) =
    if c == b'=' then elim (skip_space t) [ [] ↦ none | v ∷ vs ↦ some (key, v ∷ vs) ] else none

abbrev after_word : Text × Text → Option (Text × Text)
after_word ([], rest) = none
after_word (c ∷ key, rest) = after_equals (c ∷ key) (skip_space rest)

-- `sscanf(line, "%ms = %m[^\n]", &key, &value)` where it finds both
unfoldable pub scan_line : Text → Option (Text × Text)
scan_line line = after_word (word (skip_space line))

module _ (k : Constants) (sys : System) (parse_file : Text → Config → Outcome (Bool × Config)) where
  -- The loop over long_options.
  unfoldable pub set_option : List LongOption → Text → Text → Config → Outcome Config
  set_option [] key value c = ok c
  set_option (o ∷ os) key value c =
      (if text_eq o.name key
        then if o.required
          then parse_argument k sys parse_file o.val value c
          else if text_eq (codes "true") value
          then parse_argument k sys parse_file o.val [] c
          else ok c
        else ok c)
      >>- λ c. set_option os key value c

  unfoldable pub set_key : Text → Text → Config → Outcome Config
  set_key key value c =
      if text_eq key (codes "address")
      then ok (record c { address = some value })
      else if text_eq key (codes "sops")
      then ok (record c { sops = text_eq (codes "true") value })
      else set_option long_options key value c

  unfoldable pub parse_line : Text → Config → Outcome Config
  parse_line line c = elim (scan_line line) [ none ↦ ok c | some kv ↦ set_key kv.0 kv.1 c ]

  unfoldable pub parse_lines : List Text → Config → Outcome Config
  parse_lines [] c = ok c
  parse_lines (l ∷ ls) c = parse_line l c >>- λ c. parse_lines ls c

-- config_file_parse, for files that name others up to `depth` deep. No file is closed, so that a
-- file deeper than the descriptors last cannot be opened.
unfoldable pub config_file_parse : Constants → System → ℕ → Text → Config → Outcome (Bool × Config)
config_file_parse k sys zero filename c = ok (false, c)
config_file_parse k sys (suc depth) filename c = elim (sys.read_file filename) [
  | none ↦ ok (false, c)
  | some text ↦
      parse_lines k sys (config_file_parse k sys depth) (lines text) c >>- λ c. ok (true, c)
]

-- `%d`: the decimal digits, on fuel
unfoldable pub decimal_on : ℕ → ℕ → Text
decimal_on zero n = (b'0' + n % 10) ∷ []
decimal_on (suc fuel) n =
    let high = decimal_on fuel (n / 10) in
    if ltb n 10 then (b'0' + n) ∷ [] else high ++ ((b'0' + n % 10) ∷ [])

unfoldable pub decimal : ℕ → Text
decimal n = decimal_on n n

unfoldable pub print_int : ℤ → Text
print_int (pos n) = decimal n
print_int (negsuc n) = b'-' ∷ decimal (suc n)

-- write_config_string
unfoldable pub write_config_string : Text → Text → Text
write_config_string key value = key ++ (codes " = " ++ (value ++ (10 ∷ [])))

-- write_config_int
abbrev pub write_config_int : Text → ℤ → Text
write_config_int key value = write_config_string key (print_int value)

-- write_config_bool
abbrev pub write_config_bool : Text → Bool → Text
write_config_bool key value =
    write_config_string key (if value then codes "true" else codes "false")

-- A line that is written on a condition, before what follows.
abbrev pub written_if : Bool → Text → Text → Text
written_if true line rest = line ++ rest
written_if false line rest = rest

-- What config_save writes.
unfoldable pub saved : Config → Text
saved c = written_if (not (eqb_ℤ c.width (pos 1280))) (write_config_int (codes "width") c.width) (
    written_if (not (eqb_ℤ c.height (pos 720))) (write_config_int (codes "height") c.height) (
      written_if (not (eqb_ℤ c.fps (pos 60))) (write_config_int (codes "fps") c.fps) (
        written_if (not (eqb_ℤ c.bitrate (negsuc 0))) (write_config_int (codes "bitrate") c.bitrate)
          (written_if (not (eqb_ℤ c.packet_size (pos 1024)))
            (write_config_int (codes "packetsize") c.packet_size)
            (written_if (not c.sops) (write_config_bool (codes "sops") c.sops) (
              written_if c.localaudio (write_config_bool (codes "localaudio") c.localaudio) (
                written_if c.quitappafter (write_config_bool (codes "quitappafter") c.quitappafter)
                  (written_if c.viewonly (write_config_bool (codes "viewonly") c.viewonly) (
                    written_if (not (eqb_ℤ c.rotate (pos 0)))
                      (write_config_int (codes "rotate") c.rotate)
                      (written_if (not (text_eq c.app (codes "Steam")))
                        (write_config_string (codes "app") c.app) []))))))))))

-- config_save: the new contents of the file, if it can be opened
unfoldable pub config_save : Bool → Config → Outcome Text
config_save writable c = if writable then ok (saved c) else exits
