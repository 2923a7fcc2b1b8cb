-- ===== src/Config/Path.antt =====
-- get_path of src/config.c: where a data file is looked for.
use moonlight_allwinner_h.Prelude.{
  ℕ, ◌+◌, List, [], ◌∷◌, ◌++◌, Option, none, some, ◌==◌, if◌then◌else◌, length,
}
use moonlight_allwinner_h.Gamestream.Text.{Text, codes}
use moonlight_allwinner_h.Config.Types.{System}

-- MOONLIGHT_PATH
abbrev pub moonlight_path : Text
moonlight_path = codes "/moonlight"

-- USER_PATHS
abbrev pub user_paths : Text
user_paths = codes "."

-- DEFAULT_CONFIG_DIR
abbrev pub default_config_dir : Text
default_config_dir = codes "/.config"

-- The directories between the colons, as the loop takes them from `data_dirs`.
unfoldable pub segments : Text → List Text
segments [] = [] ∷ []
segments (c ∷ t) =
    let rest = segments t in
    if c == b':' then [] ∷ rest else elim rest [ [] ↦ (c ∷ []) ∷ [] | s ∷ more ↦ (c ∷ s) ∷ more ]

unfoldable pub or_else : Option Text → Text → Text
or_else none d = d
or_else (some t) d = t

-- HOME, or the directory of the user's entry
abbrev pub home_dir : System → Text
home_dir sys = or_else sys.home sys.user_dir

unfoldable pub data_dirs : System → Option Text → Text
data_dirs sys extra =
    let home = home_dir sys in
    user_paths
    ++ codes ":"
    ++ or_else sys.xdg_config_dir home
    ++ codes ":"
    ++ home
    ++ codes "/"
    ++ default_config_dir
    ++ codes ":"
    ++ or_else extra (codes "/usr/share:/usr/local/share")
    ++ codes "/"

-- The bytes of the two `malloc`s
unfoldable pub data_dirs_size : System → Option Text → ℕ
data_dirs_size sys extra =
    length user_paths
    + 1
    + length (or_else sys.xdg_config_dir (home_dir sys))
    + 1
    + length (home_dir sys)
    + 1
    + length default_config_dir
    + 1
    + length (or_else extra (codes "/usr/share:/usr/local/share"))
    + 2

unfoldable pub path_size : System → Option Text → Text → ℕ
path_size sys extra name = length (data_dirs sys extra) + length moonlight_path + length name + 2

-- The first byte of `path` after a directory is copied there: an empty one leaves the byte that an
-- earlier candidate has put there.
abbrev pub first_byte : ℕ → Text → ℕ
first_byte old [] = old
first_byte old (c ∷ t) = c

-- The path of one candidate.
unfoldable pub candidate : ℕ → Text → Text → Text
candidate first dir name =
    if first == b'/' then dir ++ moonlight_path ++ codes "/" ++ name else dir ++ codes "/" ++ name

-- The loop over the directories.
unfoldable pub search_dirs : System → Text → ℕ → List Text → Option Text
search_dirs sys name old [] = none
search_dirs sys name old (dir ∷ dirs) =
    let first = first_byte old dir in
    let path = candidate first dir name in
    let rest = search_dirs sys name (first_byte first path) dirs in
    if sys.is_readable path then some path else rest

unfoldable pub get_path : System → Text → Option Text → Option Text
get_path sys name extra =
    if sys.is_readable name
    then some name
    else search_dirs sys name 0 (segments (data_dirs sys extra))
