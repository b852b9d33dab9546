-- ===== src/Atomic/View.antt =====
-- What a reader sees of the named files: contents and permissions, but not which file it is.
use forge_go.Prelude.{
  ℕ, Bool, true, false, not, ◌&&◌, List, [], ◌∷◌, Option, none, some, Bytes, equal, if◌then◌else◌,
}
use forge_go.Atomic.Host.{File, Entry, regular, directory, link, World, Host, perm}
use forge_go.Atomic.Stage.{Reason, staging_restore, restoring, restoring_mode, removing, Update}

abbrev pub visible_file : Bytes → ℕ → Entry
visible_file content mode = regular (record { content = content; mode = perm mode; identity = 0 })

abbrev pub visible : Entry → Entry
visible (regular file) = visible_file file.content file.mode
visible directory = directory
visible (link to_directory) = link to_directory

abbrev pub visible_option : Option Entry → Option Entry
visible_option none = none
visible_option (some entry) = some (visible entry)

abbrev pub View : Type 0
View = Bytes → Option Entry

abbrev pub view : World → View
view w path = visible_option (w.files path)

abbrev pub put_view : Bytes → Option Entry → View → View
put_view path entry v = λ q. if equal q path then entry else v q

-- What was there before the replacement.
abbrev pub before : Option File → Option Entry
before none = none
before (some file) = some (visible_file file.content file.mode)

-- The replacements, one after the other.
abbrev put_update : Option Bytes → Update → View → View
put_update none u v = v
put_update (some path) u v = put_view path (some (visible_file u.content u.mode)) v

unfoldable pub put_all : Host → List Update → View → View
put_all h [] v = v
put_all h (u ∷ updates) v = put_all h updates (put_update (h.absolute u.path) u v)

-- The reasons for which a file is not brought back.
abbrev pub stays_replaced : Reason → Bool
stays_replaced (staging_restore _) = true
stays_replaced (restoring _) = true
stays_replaced (restoring_mode _) = true
stays_replaced (removing _) = true
stays_replaced _ = false

unfoldable pub is_rolled_back : List Reason → Bool
is_rolled_back [] = true
is_rolled_back (reason ∷ reasons) = not (stays_replaced reason) && is_rolled_back reasons
