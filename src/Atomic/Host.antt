-- ===== src/Atomic/Host.antt =====
-- What cmd/go-openssl/code/atomic.go uses of package os. A path is a cleaned absolute one. The
-- temporary files, whose random names no target has, are apart from the named files and are known
-- by a number. A script says which of the calls fail, in the order in which they are made; a call
-- that fails changes nothing.
use forge_go.Prelude.{
  ℕ, suc, ◌%◌, Bool, true, false, ◌||◌, not, [], Option, none, some, Bytes, equal, ◌==◌,
  if◌then◌else◌,
}

pub record File : Type 0 where
  pub content : Bytes
  pub mode : ℕ
  pub identity : ℕ

-- What a name stands for; a link, or any other kind of file, may lead to a directory.
pub data Entry : Type 0 where
  regular : File → Entry
  directory : Entry
  link : Bool → Entry

pub record World : Type 0 where
  pub files : Bytes → Option Entry
  pub temps : ℕ → Option File
  pub next : ℕ
  pub clock : ℕ

-- The script of the failing calls, `filepath.Abs` after `filepath.Clean`, and `filepath.Dir`.
pub record Host : Type 0 where
  pub fails : ℕ → Bool
  pub absolute : Bytes → Option Bytes
  pub parent : Bytes → Bytes

-- `FileMode.Perm`
abbrev pub perm : ℕ → ℕ
perm mode = mode % 512

unfoldable pub fails_now : Host → World → Bool
fails_now h w = h.fails w.clock

abbrev pub tick : World → World
tick w = record w { clock = suc w.clock }

abbrev pub set_file : Bytes → Option Entry → World → World
set_file path entry w = record w { files = λ q. if equal q path then entry else w.files q }

abbrev pub set_temp : ℕ → Option File → World → World
set_temp temp file w = record w { temps = λ t. if t == temp then file else w.temps t }

-- The outcome of `os.Lstat`.
pub data Lstat : Type 0 where
  found : Entry → Lstat
  absent failed : Lstat

abbrev pub found_or_absent : Option Entry → Lstat
found_or_absent none = absent
found_or_absent (some entry) = found entry

unfoldable pub lstat : Host → Bytes → World → Lstat × World
lstat h path w = (if fails_now h w then failed else found_or_absent (w.files path), tick w)

-- `os.Open`, whose handle is the entry.
unfoldable pub open_file : Host → Bytes → World → Option Entry × World
open_file h path w = (if fails_now h w then none else w.files path, tick w)

abbrev pub leads_to_directory : Option Entry → Bool
leads_to_directory none = false
leads_to_directory (some (regular _)) = false
leads_to_directory (some directory) = true
leads_to_directory (some (link to_directory)) = to_directory

-- `os.Stat` of the parent of a path.
unfoldable pub parent_is_directory : Host → Bytes → World → Bool
parent_is_directory h path w = leads_to_directory (w.files (h.parent path))

abbrev pub empty_file : ℕ → File
empty_file identity = record { content = []; mode = 384; identity = identity }

abbrev is_missing : Option Entry → Bool
is_missing none = true
is_missing (some _) = false

unfoldable pub parent_is_missing : Host → Bytes → World → Bool
parent_is_missing h path w = is_missing (w.files (h.parent path))

-- `os.CreateTemp` beside a path.
unfoldable pub create_temp : Host → Bytes → World → Option ℕ × World
create_temp h path w =
    if fails_now h w || not (parent_is_directory h path w) then (none, tick w) else (
      some w.next,
      record (set_temp w.next (some (empty_file w.next)) (tick w)) { next = suc w.next },
    )

-- `os.Remove` of a temporary file, whose error nobody reads.
unfoldable pub remove_temp : Host → ℕ → World → World
remove_temp h temp w = if fails_now h w then tick w else set_temp temp none (tick w)

abbrev pub can_replace : Option Entry → Bool
can_replace (some directory) = false
can_replace _ = true

unfoldable pub rename_file : Host → ℕ → Bytes → Option File → World → Bool × World
rename_file h temp path none w = (false, tick w)
rename_file h temp path (some file) w =
    if fails_now h w || not (can_replace (w.files path))
    then (false, tick w)
    else (true, set_temp temp none (set_file path (some (regular file)) (tick w)))

-- `os.Rename` of a temporary file; the empty name is `none`.
unfoldable pub rename : Host → Option ℕ → Bytes → World → Bool × World
unfolding rename_file
rename h none path w = (false, tick w)
rename h (some temp) path w = rename_file h temp path (w.temps temp) w

unfoldable pub with_mode : ℕ → Option Entry → World → Bytes → Bool × World
with_mode mode (some (regular file)) w path =
    (true, set_file path (some (regular (record file { mode = mode }))) (tick w))
with_mode mode _ w path = (false, tick w)

-- `os.Chmod`
unfoldable pub chmod : Host → Bytes → ℕ → World → Bool × World
unfolding with_mode
chmod h path mode w =
    if fails_now h w then (false, tick w) else with_mode mode (w.files path) w path

pub data Removal : Type 0 where
  removed was_absent not_removed : Removal

unfoldable pub remove_entry : Option Entry → World → Bytes → Removal × World
remove_entry none w path = (was_absent, tick w)
remove_entry (some directory) w path = (not_removed, tick w)
remove_entry (some entry) w path = (removed, set_file path none (tick w))

-- `os.Remove` of a target
unfoldable pub remove : Host → Bytes → World → Removal × World
unfolding remove_entry
remove h path w =
    if fails_now h w then (not_removed, tick w) else remove_entry (w.files path) w path
