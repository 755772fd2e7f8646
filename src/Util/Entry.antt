-- ===== src/Util/Entry.antt =====
-- Directory entries, and `is_directory`, `is_symlink` and `is_named_pipe` of ag_src/util.c.
use libag.Common.{Bool, true, false, Option, none, some}
use libag.Cstr.{Str}

-- `d_type`, and the file types of `st_mode`.
pub data FileType : Type 0 where
  unknown lnk dir fifo sock reg other : FileType

-- `struct dirent`, with what `stat` and `lstat` answer for its path; `none` is a failed call.
pub record Dirent : Type 0 where
  pub d_name : Str
  pub d_type : FileType
  pub stat : Option FileType
  pub lstat : Option FileType

stat_is_dir : Option FileType → Bool
stat_is_dir (some dir) = true
stat_is_dir _ = false

directory_by : FileType → Option FileType → Bool
directory_by dir s = true
directory_by unknown s = stat_is_dir s
directory_by lnk s = stat_is_dir s
directory_by _ s = false

unfoldable pub is_directory : Dirent → Bool
unfolding directory_by stat_is_dir
is_directory d = directory_by d.d_type d.stat

symlink_by : FileType → Option FileType → Bool
symlink_by lnk s = true
symlink_by unknown (some lnk) = true
symlink_by _ _ = false

unfoldable pub is_symlink : Dirent → Bool
unfolding symlink_by
is_symlink d = symlink_by d.d_type d.lstat

pipe_type : FileType → Bool
pipe_type fifo = true
pipe_type sock = true
pipe_type _ = false

pipe_by : FileType → Option FileType → Bool
pipe_by unknown (some t) = pipe_type t
pipe_by unknown none = false
pipe_by t s = pipe_type t

unfoldable pub is_named_pipe : Dirent → Bool
unfolding pipe_by pipe_type
is_named_pipe d = pipe_by d.d_type d.stat
