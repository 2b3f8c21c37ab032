-- ===== src/FileSystem/Entry.antt =====
-- `FileSystemEntry` of src/libc/include/filesystem.hpp, `initEntry` and `hasExtension`.
use mr_hak_os.Prelude.{
  ℕ, ◌+◌, ◌-◌, List, [], ◌∷◌, Bool, true, false, Option, none, some, leb, if◌then◌else◌, set, drop,
  replicate,
}
use mr_hak_os.CString.{strlen, strcmp, is_equal, memcpy}

-- FS_MAX_NAME_LENGTH, FS_MAX_FILES, FS_MAX_PATH_DEPTH, FS_MAX_FILE_SIZE
abbrev pub max_name_length : ℕ
max_name_length = 64

abbrev pub max_files : ℕ
max_files = 32

abbrev pub max_path_depth : ℕ
max_path_depth = 8

abbrev pub max_file_size : ℕ
max_file_size = 1024

pub data FileType : Type 0 where
  file directory hak_file : FileType

abbrev pub is_directory : FileType → Bool
is_directory FileType.directory = true
is_directory _ = false

abbrev pub is_hak_file : FileType → Bool
is_hak_file FileType.hak_file = true
is_hak_file _ = false

-- A pointer to an entry: its place in the order of allocation, or null.
abbrev pub EntryPtr : Type 0
EntryPtr = Option ℕ

-- `content` is the bytes behind the pointer `file.content`, or null.
pub record FileSystemEntry : Type 0 where
  pub name : List ℕ
  pub type : FileType
  pub parent : EntryPtr
  pub children : List EntryPtr
  pub child_count : ℕ
  pub content : Option (List ℕ)
  pub content_size : ℕ

-- sizeof(FileSystemEntry) in the x86_64 build, which is the one that is modelled (in the 32-bit build it is
-- smaller): 64 + 4 (+ 4) + 8 + 32 * 8 + 8 + 8 + 8
abbrev pub entry_size : ℕ
entry_size = 360

-- What `new FileSystemEntry` finds in the pool.
abbrev pub zeroed : FileSystemEntry
zeroed = record {
  name = replicate max_name_length 0;
  type = FileType.file;
  parent = none;
  children = replicate max_files none;
  child_count = 0;
  content = none;
  content_size = 0;
}

-- for (i = 0; i < len; i++) dest[i] = src[i]; dest[len] = '\0';
unfoldable pub copy_text : List ℕ → List ℕ → ℕ → List ℕ
copy_text dest src len = set (memcpy dest src len) len 0

-- The length that `initEntry` copies of a name.
abbrev pub clipped : ℕ → ℕ
clipped len = if leb max_name_length len then max_name_length - 1 else len

unfoldable pub init_entry : FileSystemEntry → List ℕ → FileType → EntryPtr → FileSystemEntry
init_entry entry name type parent = record entry {
  name = copy_text entry.name name (clipped (strlen name));
  type = type;
  parent = parent;
  child_count = if is_directory type then 0 else entry.child_count;
}

-- directory->children[directory->childCount] = child; directory->childCount++;
unfoldable pub add_child : FileSystemEntry → ℕ → FileSystemEntry
add_child d child = record d {
  children = set d.children d.child_count (some child);
  child_count = d.child_count + 1;
}

-- ".hak"
abbrev pub dot_hak : List ℕ
dot_hak = b'.' ∷ b'h' ∷ b'a' ∷ b'k' ∷ []

unfoldable pub has_extension : Option (List ℕ) → Option (List ℕ) → Bool
has_extension none extension = false
has_extension (some filename) none = false
has_extension (some filename) (some extension) =
    if leb (strlen filename) (strlen extension)
    then false
    else is_equal (strcmp (drop (strlen filename - strlen extension) filename) extension)
